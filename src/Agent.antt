-- ===== src/Agent.antt =====
-- internal/vkvmaclient/vkvmaclient.go: the client of the agent that runs in a VM.
pub mod Frame
use aws_virtual_kubelet.Base.{ℕ, String, str_append, Bool, false, Option, none, some, if◌then◌else◌}
use aws_virtual_kubelet.Kube.{Pod}
use aws_virtual_kubelet.Cloud.{Env, Result, ok, err}
use aws_virtual_kubelet.Process.{Go, ◌>>=◌, pure, get, call}
use aws_virtual_kubelet.Utils.Text.{itoa}

-- `VkvmaClient`: the configuration is the process's, read again where it is needed.
pub record VkvmaClient : Type 0 where
  pub address : String
  pub port : ℕ
  pub connection : Option ℕ

-- `NewVkvmaClient`
unfoldable pub new_vkvma_client : String → ℕ → VkvmaClient
new_vkvma_client ip port = record { address = ip; port = port; connection = none }

-- `NewVkvmaPodClient`
unfoldable pub new_vkvma_pod_client : Pod → ℕ → VkvmaClient
unfolding new_vkvma_client
new_vkvma_pod_client pod port = new_vkvma_client pod.status.pod_ip port

abbrev connection_of : Result ℕ → Option ℕ
connection_of (ok c) = some c
connection_of (err _) = none

module _ {W : Type 0} ⦃env : Env W⦄ where
  -- `IsConnected`
  unfoldable pub is_connected : VkvmaClient → Go W Bool
  is_connected v = do
    s ← get
    elim v.connection [ none ↦ pure false | some c ↦ pure (env.is_ready c s.world) ]

  -- `Connect`: the connection is kept unless the deadline has passed by the time of the `select`.
  unfoldable pub connect : VkvmaClient → Go W (Result ℕ × VkvmaClient)
  connect v = do
    s ← get
    (conn, expired) ← call (
        env.dial (str_append v.address (str_append ":" (itoa v.port)))
          s.config.vkvm_agent_connection_config.timeout_seconds)
    pure (conn, if expired then v else record v { connection = connection_of conn })

  -- `GetApplicationLifecycleClient`: the connection that the client is made over
  unfoldable pub get_application_lifecycle_client : VkvmaClient → Go W (Result (Option ℕ))
  unfolding is_connected connect
  get_application_lifecycle_client v = do
    connected ← is_connected v
    if connected then pure (ok v.connection) else do
      (r, v') ← connect v
      elim r [ err e ↦ pure (err e) | ok _ ↦ pure (ok v'.connection) ]

  -- `GetHealthClient`
  unfoldable pub get_health_client : VkvmaClient → Go W (Result (Option ℕ))
  unfolding is_connected connect
  get_health_client v = do
    connected ← is_connected v
    if connected then pure (ok v.connection) else do
      (r, v') ← connect v
      elim r [ err e ↦ pure (err e) | ok _ ↦ pure (ok v'.connection) ]
