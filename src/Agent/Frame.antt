-- ===== src/Agent/Frame.antt =====
-- What a connection to an agent leaves alone.
use aws_virtual_kubelet.Base.{ℕ, arith}
use aws_virtual_kubelet.Cloud.{Env}
use aws_virtual_kubelet.Process.{Process, after}
use aws_virtual_kubelet.Process.Frame.{Keeps}
use aws_virtual_kubelet.Agent.{VkvmaClient, get_application_lifecycle_client}

pub get_application_lifecycle_client-Keeps :
    {W : Type 0} ⦃env : Env W⦄ (pod : ℕ) (c : VkvmaClient) (s : Process W)
    → Keeps pod s (after (get_application_lifecycle_client c s))
unfolding get_application_lifecycle_client
get_application_lifecycle_client-Keeps pod c s = ground arith
