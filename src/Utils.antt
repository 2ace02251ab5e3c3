-- ===== src/Utils.antt =====
-- internal/utils
pub mod Keys
pub mod Conditions
pub mod Text
pub mod Base64
pub mod Decoding
pub mod Ascii
pub mod Json
pub mod Tokens
pub mod Reading
mod Tests
use aws_virtual_kubelet.Base.{
  ℕ, String, str_append, str_eq, Bool, true, false, ◌||◌, List, [], ◌∷◌, ◌++◌, map, ltb,
  if◌then◌else◌,
}
use aws_virtual_kubelet.Kube.{PodCondition}
use Text.{split, trim}

-- pod.go: GetPodCacheKey
unfoldable pub get_pod_cache_key : String → String → String
get_pod_cache_key namespace name = str_append namespace (str_append "-" name)

-- pod.go: PodIsWarmPool, which looks at the number of pools configured only
unfoldable pub pod_is_warm_pool : ℕ → Bool
pod_is_warm_pool config_length = if ltb 0 config_length then true else false

-- pod.go: GetPodCondition
unfoldable pub get_pod_condition : ℕ → String → String → String → PodCondition
get_pod_condition now condition_type condition_status message = record {
  condition_type = condition_type;
  status = condition_status;
  last_probe_time = now;
  last_transition_time = now;
  message = message;
}

-- The loop of UpdateOrAppendPodCondition: every condition of the type is updated.
unfoldable pub update_conditions : PodCondition → List PodCondition → List PodCondition
update_conditions new_cond [] = []
update_conditions new_cond (c ∷ cs) =
    (if str_eq c.condition_type new_cond.condition_type
      then record c { status = new_cond.status; message = new_cond.message }
      else c)
    ∷ update_conditions new_cond cs

-- `updated` after that loop
unfoldable pub has_condition : PodCondition → List PodCondition → Bool
has_condition new_cond [] = false
has_condition new_cond (c ∷ cs) =
    str_eq c.condition_type new_cond.condition_type || has_condition new_cond cs

-- pod.go: UpdateOrAppendPodCondition
unfoldable pub update_or_append_pod_condition : List PodCondition → PodCondition → List PodCondition
unfolding update_conditions has_condition
update_or_append_pod_condition conditions new_cond =
    let conditions' = update_conditions new_cond conditions in
    if has_condition new_cond conditions then conditions' else conditions' ++ new_cond ∷ []

-- utils.go: TrimmedStringSplit
unfoldable pub trimmed_string_split : String → String → List String
unfolding split trim
trimmed_string_split input sep = map trim (split input sep)
