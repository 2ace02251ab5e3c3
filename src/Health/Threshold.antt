-- ===== src/Health/Threshold.antt =====
-- A monitor over a history of check results: its failure counter and its state.
use aws_virtual_kubelet.Base.{
  ℕ, suc, ◌≡◌, refl, Bool, true, false, ◌&&◌, ◌||◌, not, List, [], ◌∷◌, ltb, leb, if◌then◌else◌,
  arith,
}
use aws_virtual_kubelet.Health.Monitor.{
  Monitor, Subject, MonitoringState, healthy, unhealthy, CheckData, new_monitor, new_check_result,
}
use aws_virtual_kubelet.Base.{String}

-- The monitor after the results of a history, the latest first; `true` is a failed check.
unfoldable pub observe : ℕ → Monitor → List Bool → Monitor
observe threshold m [] = m
observe threshold m (failed ∷ older) =
    (new_check_result threshold 0 (observe threshold m older) failed "" CheckData.nothing).0.monitor

-- How many checks have failed since the last one that did not.
unfoldable pub failures_in_a_row : List Bool → ℕ
failures_in_a_row [] = 0
failures_in_a_row (true ∷ older) = suc (failures_in_a_row older)
failures_in_a_row (false ∷ older) = 0

unfoldable pub any_success : List Bool → Bool
any_success [] = false
any_success (failed ∷ older) = not failed || any_success older

-- The state that a history calls for.
unfoldable pub expected_state : ℕ → List Bool → MonitoringState
unfolding failures_in_a_row any_success
expected_state threshold history =
    if ltb 0 (failures_in_a_row history) && leb threshold (failures_in_a_row history)
    then unhealthy
    else if any_success history
    then healthy
    else MonitoringState.unknown

-- Whatever checks a new monitor has been through, its counter holds the failures since the last
-- success, and it is unhealthy exactly if these are some and reach the threshold; otherwise it is
-- healthy if any check has ever succeeded, and unknown if none has.
pub observe-expected_state :
    (threshold resource : ℕ) (subject : Subject) (name : String) (history : List Bool)
    → let m = observe threshold (new_monitor resource subject name) history in
      (m.failures ≡ failures_in_a_row history) × (m.state ≡ expected_state threshold history)
unfolding observe expected_state new_check_result new_monitor
observe-expected_state threshold resource subject name [] = (refl, refl)
observe-expected_state threshold resource subject name (true ∷ older) =
    ground (arith, observe-expected_state threshold resource subject name older)
observe-expected_state threshold resource subject name (false ∷ older) =
    ground (arith, observe-expected_state threshold resource subject name older)
