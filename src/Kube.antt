-- ===== src/Kube.antt =====
-- The Kubernetes objects that the provider reads and writes, with the fields that it uses
-- (vendor/k8s.io/api/core/v1/types.go).
use aws_virtual_kubelet.Base.{ℕ, String, Bool, List, Option, none, some, Table, lookup, insert}

pub data ContainerState : Type 0 where
  unset : ContainerState
  waiting running : String → ContainerState
  -- Message, FinishedAt, Reason
  terminated : String → ℕ → String → ContainerState

pub record ContainerStatus : Type 0 where
  pub name : String
  pub ready : Bool
  pub state : ContainerState

pub record PodCondition : Type 0 where
  pub condition_type : String
  pub status : String
  pub last_probe_time : ℕ
  pub last_transition_time : ℕ
  pub message : String

pub record PodStatus : Type 0 where
  pub phase : String
  pub reason : String
  pub message : String
  pub host_ip : String
  pub pod_ip : String
  pub pod_ips : List String
  pub conditions : List PodCondition
  pub container_statuses : List ContainerStatus

-- `annotations` is `none` for Go's nil map, which can be read but not written.
pub record Pod : Type 0 where
  pub name : String
  pub namespace : String
  pub uid : String
  pub annotations : Option (Table String)
  pub status : PodStatus

abbrev pub text_or_empty : Option String → String
text_or_empty none = ""
text_or_empty (some v) = v

abbrev pub look_up_text : String → Option (Table String) → String
look_up_text key none = ""
look_up_text key (some m) = text_or_empty (lookup key m)

-- `pod.Annotations[key]`: the empty text where the key, or the map, is missing
unfoldable pub annotation : String → Pod → String
annotation key pod = look_up_text key pod.annotations

-- `pod.Annotations[key] = value`: `none` is the panic of a write to a nil map
unfoldable pub annotate : String → String → Pod → Option Pod
annotate key value pod = elim pod.annotations [
  | none ↦ none
  | some m ↦ some (record pod { annotations = some (insert key value m) })
]
