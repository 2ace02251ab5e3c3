-- ===== src/Health/Monitor.antt =====
-- internal/health/monitor.go: a monitor, its failure counter and its state.
use aws_virtual_kubelet.Base.{
  ℕ, suc, String, str_append, Bool, false, List, [], ◌∷◌, leb, ltb, if◌then◌else◌,
}
use aws_virtual_kubelet.Kube.{PodStatus}
use aws_virtual_kubelet.Metrics.{Metric, health_check_state_reset, health_check_state_unhealthy}

pub data Subject : Type 0 where
  unknown vkvma app : Subject

pub data MonitoringState : Type 0 where
  unknown healthy unhealthy : MonitoringState

-- The check and stream functions of a watcher are those of its subject.
-- `resource` is the pod that is watched.
pub record Monitor : Type 0 where
  pub resource : ℕ
  pub subject : Subject
  pub name : String
  pub failures : ℕ
  pub state : MonitoringState
  pub is_monitoring : Bool
  pub is_watcher : Bool

-- What a check brings with it: nothing, a `*corev1.PodStatus`, a nil one (an agent may send its
-- response without one), or a value of another type.
pub data CheckData : Type 0 where
  nothing : CheckData
  pod_status : PodStatus → CheckData
  nil_pod_status : CheckData
  other : CheckData

pub record CheckResult : Type 0 where
  pub monitor : Monitor
  pub failed : Bool
  pub message : String
  pub timestamp : ℕ
  pub content : CheckData

unfoldable pub new_monitor : ℕ → Subject → String → Monitor
new_monitor resource subject name = record {
  resource = resource;
  subject = subject;
  name = name;
  failures = 0;
  state = MonitoringState.unknown;
  is_monitoring = false;
  is_watcher = false;
}

unfoldable pub reset_failures : Monitor → Monitor × List Metric
reset_failures m =
    (record m { failures = 0; state = MonitoringState.healthy }, health_check_state_reset ∷ [])

unfoldable pub increment_failures : ℕ → Monitor → Monitor × List Metric
increment_failures unhealthy_threshold m =
    let m' = record m { failures = suc m.failures } in
    if leb unhealthy_threshold m'.failures
    then (record m' { state = MonitoringState.unhealthy }, health_check_state_unhealthy ∷ [])
    else (m', [])

-- The result carries the monitor as it is once its counter is updated.
unfoldable pub new_check_result :
    ℕ → ℕ → Monitor → Bool → String → CheckData → CheckResult × List Metric
unfolding reset_failures increment_failures
new_check_result threshold now m failed message content =
    let (m', metrics) = if failed then increment_failures threshold m else reset_failures m in
    (
      record {
        monitor = m';
        failed = failed;
        message = message;
        timestamp = now;
        content = content;
      },
      metrics,
    )

-- The name with an orb: green or orange where the monitor is healthy, red, or blue.
unfoldable pub to_string : Monitor → String
to_string m = str_append (str_append m.name ":") (elim m.state [
  | MonitoringState.healthy ↦ if ltb 0 m.failures then "🟠" else "🟢"
  | MonitoringState.unhealthy ↦ "🔴"
  | MonitoringState.unknown ↦ "🔵"
])
