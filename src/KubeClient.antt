-- ===== src/KubeClient.antt =====
-- internal/k8sutils/k8s_client.go: the client of the Kubernetes API.
use aws_virtual_kubelet.Base.{String, str_append, List, if◌then◌else◌}
use aws_virtual_kubelet.Kube.{Pod}
use aws_virtual_kubelet.Cloud.{Env, Result, ok, err}
use aws_virtual_kubelet.Process.{Go, ◌>>=◌, pure, panic, get, call}

module _ {W : Type 0} ⦃env : Env W⦄ where
  -- the path that `NewK8sClient` builds its configuration from: none if there is no such file
  unfoldable pub kubeconfig : String → Go W String
  kubeconfig config_location = do
    s ← get
    let path = env.clean config_location
    pure (if env.is_missing path s.world then "" else path)

  -- `NewK8sClient`
  unfoldable pub new_k8s_client : String → Go W (Result (Unit {0}))
  unfolding kubeconfig
  new_k8s_client config_location = do
    path ← kubeconfig config_location
    config ← call (env.build_config_from_flags path)
    elim config [ err e ↦ pure (err e) | ok _ ↦ call env.new_for_config ]

  -- The methods of a client; a nil receiver, which a failed `NewK8sClient` leaves, is a panic.
  abbrev with_client : {A : Type 0} → Result (Unit {0}) → Go W A → Go W A
  with_client (err _) m = panic "nil pointer dereference"
  with_client (ok _) m = m

  -- `GetPods`
  unfoldable pub client_get_pods : Result (Unit {0}) → String → Go W (Result (List Pod))
  client_get_pods client node_name =
      with_client client (call (env.list_pods "" (str_append "spec.nodeName=" node_name)))

  -- `GetPod`
  unfoldable pub client_get_pod : Result (Unit {0}) → String → String → Go W (Result Pod)
  client_get_pod client namespace pod_name =
      with_client client (call (env.get_pod_object namespace pod_name))

  -- `DeletePod`
  unfoldable pub client_delete_pod : Result (Unit {0}) → String → String → Go W (Result (Unit {0}))
  client_delete_pod client namespace pod_name =
      with_client client (call (env.delete_pod_object namespace pod_name))
