-- ===== src/Examples/Pools.antt =====
-- The theorems about the warm pool, each applied at a concrete process.
use aws_virtual_kubelet.Base.{
  int_ltb, to_nat, IsTable, ◌≡◌, refl, ◌≤◌, arith, [], ◌∷◌, none, true, eq_iff,
}
use aws_virtual_kubelet.Cloud.{ok}
use aws_virtual_kubelet.Process.{Process, done, after}
use aws_virtual_kubelet.Process.Frame.{Returns}
use aws_virtual_kubelet.WarmPool.State.{cumulative_warm_ec2}
use aws_virtual_kubelet.WarmPool.Depth.{check_warm_pool_depth, check_pools}
use aws_virtual_kubelet.WarmPool.Shrink.{Shrunk, check_warm_pool_depth-Shrunk}
use aws_virtual_kubelet.WarmPool.Grow.{check_pools-last}
use aws_virtual_kubelet.WarmPool.Refresh.{
  refresh_warm_pool_from_ec2, import_page, import_pages, check_ec2_tags_for_state,
  import_reservations, import_instances, import_tags, import_tag,
}
use aws_virtual_kubelet.WarmPool.Disjoint.{
  maps_with, answered, refresh_warm_pool_from_ec2-maps_with,
}
use aws_virtual_kubelet.WarmPool.Import.{is_ready_in}
use aws_virtual_kubelet.WarmPool.Ready.{refresh_warm_pool_from_ec2-ready}
use aws_virtual_kubelet.WarmPool.Allocation.{Allocated, pop_ready-Allocated}
use aws_virtual_kubelet.Scenario.{
  World, ready_instance, process, full_process, full_state, small_pool, small_env, small_env-IsFair,
}

check_warm_pool_depth-Shrunk_example :
    (t : Process World) × (check_warm_pool_depth (small_pool 1) full_process ≡ done tt t)
    × Shrunk small_env-IsFair (small_pool 1) full_process t
unfolding int_ltb
check_warm_pool_depth-Shrunk_example =
    check_warm_pool_depth-Shrunk small_env-IsFair (small_pool 1) full_process refl

check_pools-last_example :
    Returns
      (λ t. cumulative_warm_ec2 t.vk_state ≤ 1)
      (check_pools (small_pool 4 ∷ small_pool 1 ∷ []) full_process)
unfolding to_nat
check_pools-last_example =
    check_pools-last small_env-IsFair (small_pool 4 ∷ []) (small_pool 1) full_process

full_state-IsTable : IsTable full_state.ready_ec2
full_state-IsTable = ((ground (arith, eq_iff "i-2" "i-1"), tt), (tt, tt))

pop_ready-Allocated_example : Allocated full_process
pop_ready-Allocated_example =
    pop_ready-Allocated small_env-IsFair full_process full_state-IsTable (omega arith)

refresh_warm_pool_from_ec2-maps_with_example :
    maps_with "i-ready" (after (refresh_warm_pool_from_ec2 (process 1))).vk_state
    ≤ answered "i-ready"
        (ok (record { reservations = (ready_instance ∷ []) ∷ []; next_token = none }))
refresh_warm_pool_from_ec2-maps_with_example =
    refresh_warm_pool_from_ec2-maps_with "i-ready" (process 1)

refresh_warm_pool_from_ec2-ready_example :
    is_ready_in "i-ready" (after (refresh_warm_pool_from_ec2 (process 1))).vk_state ≡ true
unfolding refresh_warm_pool_from_ec2 check_ec2_tags_for_state import_pages import_page
    import_reservations import_instances import_tags import_tag
refresh_warm_pool_from_ec2-ready_example =
    refresh_warm_pool_from_ec2-ready "i-ready" (process 1)
      (after (refresh_warm_pool_from_ec2 (process 1)))
      (record { reservations = (ready_instance ∷ []) ∷ []; next_token = none }) refl refl refl
