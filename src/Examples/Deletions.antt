-- ===== src/Examples/Deletions.antt =====
-- The theorems about DeletePod, UpdatePod and GetPod, each applied at a concrete process.
use aws_virtual_kubelet.Base.{◌≡◌, refl, some, false, lookup, remove, str_eq}
use aws_virtual_kubelet.Kube.{annotation}
use aws_virtual_kubelet.Process.{after}
use aws_virtual_kubelet.Utils.{get_pod_cache_key}
use aws_virtual_kubelet.Utils.Text.{itoa}
use aws_virtual_kubelet.Awsutils.UserData.{new_client}
use aws_virtual_kubelet.Awsutils.Instances.{terminate_ec2}
use aws_virtual_kubelet.Agent.{get_application_lifecycle_client}
use aws_virtual_kubelet.Cache.{cache_get, cache_delete}
use aws_virtual_kubelet.Compute.{delete_compute}
use aws_virtual_kubelet.Provider.Monitoring.{stop_pod_monitor, stop, notify, notify_pod_delete}
use aws_virtual_kubelet.Provider.{
  delete_pod, delete_stopped, after_terminate, terminate_app, finish_delete,
}
use aws_virtual_kubelet.Provider.Removal.{
  Deleted, NotDeleted, delete_pod-Deleted, delete_pod-NotDeleted,
}
use aws_virtual_kubelet.Provider.Termination.{IsTerminated, delete_pod-IsTerminated}
use aws_virtual_kubelet.Scenario.{watching, entry, small_env}

-- All that a run of DeletePod calls.
unfoldable pub deletion : Unit {0}
unfolding delete_pod delete_stopped after_terminate terminate_app finish_delete stop_pod_monitor
    stop notify notify_pod_delete delete_compute terminate_ec2 new_client annotation
    get_application_lifecycle_client itoa cache_get cache_delete get_pod_cache_key lookup remove
deletion = tt

delete_pod-Deleted_example :
    Deleted 0 0 (watching (some false) 1) (after (delete_pod 0 (watching (some false) 1)))
unfolding deletion
delete_pod-Deleted_example =
    delete_pod-Deleted 0 (watching (some false) 1) (after (delete_pod 0 (watching (some false) 1)))
      entry 0 false refl refl refl (tt, tt) refl

-- TerminateInstances is refused.
delete_pod-NotDeleted_example :
    NotDeleted 0 (watching (some false) 0) (after (delete_pod 0 (watching (some false) 0)))
unfolding deletion
delete_pod-NotDeleted_example =
    delete_pod-NotDeleted 0 (watching (some false) 0)
      (after (delete_pod 0 (watching (some false) 0))) entry 0 false refl refl refl "denied" refl

instance_named : str_eq "i-ready" "" ≡ false
instance_named = refl

delete_pod-IsTerminated_example : IsTerminated small_env "i-ready"
unfolding deletion
delete_pod-IsTerminated_example =
    delete_pod-IsTerminated "i-ready" 0 instance_named (watching (some false) 1)
      (after (delete_pod 0 (watching (some false) 1))) refl refl
