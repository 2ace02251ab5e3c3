-- ===== src/WarmPool/Race.antt =====
-- GetWarmPoolInstanceIfExist, called again before the instance that it has handed out is tagged.
use aws_virtual_kubelet.Base.{String, [], ◌∷◌, Option}
use aws_virtual_kubelet.Cloud.{Env, Tag, Instance, DescribeInstancesOutput}
use aws_virtual_kubelet.Process.{Process}
use aws_virtual_kubelet.WarmPool.State.{State, empty_state}
use aws_virtual_kubelet.WarmPool.Tags.{warmpool_status, operation_ready}
use aws_virtual_kubelet.WarmPool.Refresh.{info_of}

-- The tag of an instance that is ready, and that no pod has yet.
abbrev pub ready_tag : Tag
ready_tag = record { key = warmpool_status; value = operation_ready }

abbrev pub one_page : Instance → Option String → DescribeInstancesOutput
one_page i token = record { reservations = (i ∷ []) ∷ []; next_token = token }

abbrev pub only_ready : Instance → String → State
only_ready i ip = record empty_state { ready_ec2 = (i.instance_id, info_of i.instance_id ip) ∷ [] }

module _ {W : Type 0} ⦃env : Env W⦄ (i : Instance) (ip : String) where
  -- The process after a refresh.
  abbrev refreshed : Process W → W → Process W
  refreshed s w = record s { world = w; vk_state = only_ready i ip }
