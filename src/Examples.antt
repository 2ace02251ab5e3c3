-- ===== src/Examples.antt =====
-- The theorems about the provider, each applied at a concrete process; here those about CreatePod.
mod Deletions
mod Pools
mod Nodes
mod Agents
mod Loops
mod Lifecycles
mod Parts
mod Overlaps
mod Workers
mod Runs
use aws_virtual_kubelet.Base.{◌≡◌, refl, none, ◌⊎◌, lookup}
use aws_virtual_kubelet.Cloud.{ok, err}
use aws_virtual_kubelet.Process.{crash, after, pure, ◌>>=◌}
use aws_virtual_kubelet.Cache.{cache_get}
use aws_virtual_kubelet.Provider.{pod_key, create_pod, delete_pod}
use aws_virtual_kubelet.Provider.Creation.{
  Created, NotCreated, create_pod-Created, create_pod-NotCreated, create_pod_error-delete_pod,
}
use aws_virtual_kubelet.Scenario.{process, small_env}
use aws_virtual_kubelet.Awsutils.UserData.{new_client}
use aws_virtual_kubelet.Agent.{get_application_lifecycle_client}
use aws_virtual_kubelet.Utils.{get_pod_cache_key}
use aws_virtual_kubelet.Utils.Text.{itoa}
use aws_virtual_kubelet.Kube.{annotation, annotate}
use aws_virtual_kubelet.Awsutils.Instances.{terminate_ec2}
use aws_virtual_kubelet.Compute.Placement.{get_compute-Placed}
use aws_virtual_kubelet.Compute.{
  instance_id_key, delete_compute, pod_has_instance, get_warm_compute, choose_compute, get_compute,
}
use aws_virtual_kubelet.WarmPool.Tags.{update_ec2_tags}
use aws_virtual_kubelet.WarmPool.Depth.{pop}
use aws_virtual_kubelet.WarmPool.Refresh.{
  import_tag, import_tags, import_instances, import_reservations, import_page, import_pages,
  check_ec2_tags_for_state, refresh_warm_pool_from_ec2, pop_ready, get_warm_pool_instance_if_exist,
}
use aws_virtual_kubelet.Base.{insert, remove}
use aws_virtual_kubelet.Provider.Monitoring.{create_pod_monitor, start, notify}
use aws_virtual_kubelet.Provider.{
  launch_over, launch_application, finish_create, mark_in_use, after_launch, launch_on, use_compute,
}
use aws_virtual_kubelet.Cache.{cache_set, cache_delete}

-- All that a run of CreatePod from a warm pool calls.
pub creation : Unit {0}
unfolding create_pod use_compute launch_on after_launch mark_in_use finish_create start notify
    launch_application launch_over get_application_lifecycle_client itoa cache_set cache_delete
    cache_get create_pod_monitor get_compute choose_compute get_warm_compute pod_has_instance
    get_warm_pool_instance_if_exist refresh_warm_pool_from_ec2 check_ec2_tags_for_state import_pages
    import_page import_reservations import_instances import_tags import_tag pop_ready pop
    update_ec2_tags annotation annotate insert remove lookup get_pod_cache_key new_client
creation = tt

-- The second call of CreateTags, which marks the instance as in use, is refused.
create_pod_error-delete_pod_example :
    (cache_get
        (pod_key ((after (create_pod 0 (process 1))).pods 0))
        (after (create_pod 0 (process 1)))
      ≡ none)
    ⊎ (delete_pod 0 (after (create_pod 0 (process 1)))
        ≡ crash "call of a nil function" (after (create_pod 0 (process 1))))
unfolding creation
create_pod_error-delete_pod_example =
    create_pod_error-delete_pod 0 (process 1) (after (create_pod 0 (process 1))) tt "denied" refl

create_pod-Created_example : Created 0 (process 2) (after (create_pod 0 (process 2)))
unfolding creation
create_pod-Created_example =
    create_pod-Created 0 (process 2) (after (create_pod 0 (process 2))) refl

create_pod-NotCreated_example : NotCreated 0 (process 1) (after (create_pod 0 (process 1)))
unfolding creation
create_pod-NotCreated_example =
    create_pod-NotCreated 0 (process 1) (after (create_pod 0 (process 1))) tt "denied" refl

get_compute-Placed_example :
    let t = after (get_compute 0 (process 2)) in
    (annotation instance_id_key (t.pods 0) ≡ "i-ready")
    × ((t.pods 0).status.pod_ip ≡ "10.0.0.1")
    × (delete_compute 0 t
        ≡ (terminate_ec2 "i-ready" >>= elim [ err e ↦ pure (err e) | ok _ ↦ pure (ok tt) ]) t)
unfolding creation
get_compute-Placed_example =
    get_compute-Placed 0 (process 2) (after (get_compute 0 (process 2))) "i-ready" "10.0.0.1" refl
