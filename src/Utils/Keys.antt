-- ===== src/Utils/Keys.antt =====
-- GetPodCacheKey of internal/utils/pod.go: which pods share a key.
use aws_virtual_kubelet.Base.{◌≡◌, String, str_append, ◌∙◌, ap}
use text.Mathlib.TextLemmas.{append_assoc as str_append_assoc}
use aws_virtual_kubelet.Utils.{get_pod_cache_key}

-- Two pods of different namespaces have one key if a dash moves from the one name to the other.
pub get_pod_cache_key-collision :
    (a b c : String)
    → get_pod_cache_key (str_append a (str_append "-" b)) c
      ≡ get_pod_cache_key a (str_append b (str_append "-" c))
unfolding get_pod_cache_key
get_pod_cache_key-collision a b c =
    str_append_assoc a (str_append "-" b) (str_append "-" c)
    ∙ ap (str_append a) (str_append_assoc "-" b (str_append "-" c))
