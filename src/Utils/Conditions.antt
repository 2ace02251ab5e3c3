-- ===== src/Utils/Conditions.antt =====
-- UpdateOrAppendPodCondition of internal/utils/pod.go: the conditions that it leaves.
use aws_virtual_kubelet.Base.{
  ◌≡◌, str_eq, Bool, true, ◌&&◌, ◌||◌, not, List, [], ◌∷◌, ◌++◌, refl, if◌then◌else◌, arith,
}
use text.Mathlib.TextPositions.{eq_refl}
use aws_virtual_kubelet.Kube.{PodCondition}
use aws_virtual_kubelet.Utils.{update_or_append_pod_condition, update_conditions, has_condition}

-- A condition of the type in question has the new status and message.
abbrev is_current : PodCondition → PodCondition → Bool
is_current new_cond c =
    not (str_eq c.condition_type new_cond.condition_type)
    || (str_eq c.status new_cond.status && str_eq c.message new_cond.message)

pub all_current : PodCondition → List PodCondition → Bool
all_current new_cond [] = true
all_current new_cond (c ∷ cs) = is_current new_cond c && all_current new_cond cs

-- The conditions of all other types.
pub others : PodCondition → List PodCondition → List PodCondition
others new_cond [] = []
others new_cond (c ∷ cs) =
    let rest = others new_cond cs in
    if str_eq c.condition_type new_cond.condition_type then rest else c ∷ rest

-- What is to hold of the conditions `after` an update of the conditions `before`.
pub record Updated (new_cond : PodCondition) (before after : List PodCondition) : Type 0 where
  pub present : has_condition new_cond after ≡ true
  pub current : all_current new_cond after ≡ true
  pub kept : others new_cond after ≡ others new_cond before

update_conditions-Updated :
    (new_cond : PodCondition) (cs : List PodCondition)
    → (has_condition new_cond (update_conditions new_cond cs) ≡ has_condition new_cond cs)
      × (all_current new_cond (update_conditions new_cond cs) ≡ true)
      × (others new_cond (update_conditions new_cond cs) ≡ others new_cond cs)
unfolding update_conditions has_condition all_current others
update_conditions-Updated new_cond [] = (refl, refl, refl)
update_conditions-Updated new_cond (c ∷ cs) = ground (
  arith,
  update_conditions-Updated new_cond cs,
  eq_refl new_cond.status,
  eq_refl new_cond.message,
)

append_condition :
    (new_cond : PodCondition) (cs : List PodCondition)
    → (has_condition new_cond (cs ++ new_cond ∷ []) ≡ true)
      × (all_current new_cond (cs ++ new_cond ∷ []) ≡ all_current new_cond cs)
      × (others new_cond (cs ++ new_cond ∷ []) ≡ others new_cond cs)
unfolding has_condition all_current others
append_condition new_cond [] =
    ground
      (arith, eq_refl new_cond.condition_type, eq_refl new_cond.status, eq_refl new_cond.message)
append_condition new_cond (c ∷ cs) = ground (arith, append_condition new_cond cs)

-- An update of the conditions leaves a condition of the type in question, gives every one of that
-- type the new status and message, and leaves those of other types as they are and in their order.
pub update_or_append_pod_condition-Updated :
    (conditions : List PodCondition) (new_cond : PodCondition)
    → Updated new_cond conditions (update_or_append_pod_condition conditions new_cond)
unfolding update_or_append_pod_condition
update_or_append_pod_condition-Updated conditions new_cond = ground (
  arith,
  update_conditions-Updated new_cond conditions,
  append_condition new_cond (update_conditions new_cond conditions),
)
