-- ===== src/Health/PodMonitor.antt =====
-- internal/health/health.go: the monitors of a pod. `cancel` is nil until `Start`, and then tells
-- whether it has been called.
use aws_virtual_kubelet.Base.{ℕ, Bool, true, false, List, [], ◌∷◌, map, Option, none, some}
use aws_virtual_kubelet.Health.Monitor.{Monitor, MonitoringState, vkvma, app, new_monitor}

pub record PodMonitor : Type 0 where
  pub monitors : List Monitor
  pub pod : ℕ
  pub handler : ℕ
  pub cancel : Option Bool

-- `createMonitors`: a watcher of the agent and one of the application.
unfoldable pub create_monitors : ℕ → List Monitor
unfolding new_monitor
create_monitors pod =
    record (new_monitor pod vkvma "vkvma.watch") { is_watcher = true }
    ∷ record (new_monitor pod app "app.watch") { is_watcher = true }
    ∷ []

unfoldable pub new_pod_monitor : ℕ → ℕ → PodMonitor
unfolding create_monitors
new_pod_monitor pod handler = record {
  monitors = create_monitors pod;
  pod = pod;
  handler = handler;
  cancel = none;
}

-- `Run` of one monitor, and `Start`.
unfoldable pub running_monitor : Monitor → Monitor
running_monitor m = record m { is_monitoring = true }

unfoldable pub started : PodMonitor → PodMonitor
unfolding running_monitor
started pm = record pm { monitors = map running_monitor pm.monitors; cancel = some false }

-- What each loop leaves behind when its context is cancelled.
unfoldable pub stopped_monitor : Monitor → Monitor
stopped_monitor m = record m { state = MonitoringState.unknown; is_monitoring = false }

-- After `cancel()` and the wait for all loops.
unfoldable pub stopped : PodMonitor → PodMonitor
unfolding stopped_monitor
stopped pm = record pm { monitors = map stopped_monitor pm.monitors; cancel = some true }
