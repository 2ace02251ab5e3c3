-- ===== src/Examples/Parts.antt =====
-- The theorems about configuration, health checks, conditions and keys, each applied at concrete data.
use aws_virtual_kubelet.Base.{lookup, arith, ◌≡◌, ◌≢◌, ◌↔◌, true, false, [], ◌∷◌, All, none, refl}
use aws_virtual_kubelet.Cloud.{ok}
use aws_virtual_kubelet.Kube.{PodCondition}
use aws_virtual_kubelet.Process.{done, after}
use aws_virtual_kubelet.Utils.{get_pod_cache_key, update_or_append_pod_condition}
use aws_virtual_kubelet.Utils.Conditions.{Updated, update_or_append_pod_condition-Updated}
use aws_virtual_kubelet.Config.Validate.{validate}
use aws_virtual_kubelet.Config.Valid.{IsCompletePool, validate_iff}
use aws_virtual_kubelet.Health.Monitor.{CheckResult, vkvma, unhealthy, new_monitor, pod_status}
use aws_virtual_kubelet.Health.Threshold.{
  observe, failures_in_a_row, any_success, expected_state, observe-expected_state,
}
use aws_virtual_kubelet.Health.Handler.{handle_check_result}
use aws_virtual_kubelet.Cache.{cache_get}
use aws_virtual_kubelet.Provider.{update_pod, get_pod_status}
use aws_virtual_kubelet.Provider.Staleness.{get_pod_status-stale}
use aws_virtual_kubelet.Scenario.{
  small_env, entry, placed_pod, process, watching, small_config, small_pool,
}

validate_iff_example : (validate (small_config (small_pool 2 ∷ [])) ≡ ok tt) ↔ (
    ((small_config (small_pool 2 ∷ [])).management_subnet ≢ "")
    × All IsCompletePool (small_pool 2 ∷ []))
validate_iff_example = validate_iff (small_config (small_pool 2 ∷ []))

observe-expected_state_example :
    let m = observe 3 (new_monitor 0 vkvma "vkvma.watch") (true ∷ true ∷ true ∷ false ∷ []) in
    (m.failures ≡ 3) × (m.state ≡ unhealthy)
unfolding failures_in_a_row any_success expected_state
observe-expected_state_example =
    observe-expected_state 3 0 vkvma "vkvma.watch" (true ∷ true ∷ true ∷ false ∷ [])

-- an agent that reports a running pod, without its addresses
abbrev agent_report : CheckResult
agent_report = record {
  monitor = new_monitor 0 vkvma "vkvma.watch";
  failed = false;
  message = "";
  timestamp = 0;
  content = pod_status (record (((process 0).pods 0).status) { phase = "Running" });
}

abbrev condition : PodCondition
condition = record {
  condition_type = "Ready";
  status = "True";
  last_probe_time = 1;
  last_transition_time = 1;
  message = "up";
}

update_or_append_pod_condition-Updated_example :
    Updated condition
      (record condition { status = "False" } ∷ [])
      (update_or_append_pod_condition (record condition { status = "False" } ∷ []) condition)
update_or_append_pod_condition-Updated_example =
    update_or_append_pod_condition-Updated (record condition { status = "False" } ∷ []) condition

-- An agent's report about the pod 0 comes after an update of its entry with the object 1.
get_pod_status-stale_example :
    let t = after (handle_check_result agent_report (after (update_pod 1 (watching none 0)))) in
    get_pod_status "default" "web" t ≡ done (ok placed_pod.status) t
unfolding cache_get lookup get_pod_cache_key new_monitor
get_pod_status-stale_example =
    get_pod_status-stale 1 (watching none 0) entry agent_report refl (omega arith) refl
