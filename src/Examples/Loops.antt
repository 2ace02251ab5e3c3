-- ===== src/Examples/Loops.antt =====
-- The theorems about the loops of the monitors, applied to the monitors of a pod.
use aws_virtual_kubelet.Base.{◌≡◌, refl, true, false, [], ◌∷◌, inr}
use aws_virtual_kubelet.Health.Monitor.{new_check_result, Monitor, vkvma, nothing, new_monitor}
use aws_virtual_kubelet.Health.Loop.{
  nil_stream, ready, sending, System, Move, Steps, here, work, start, later, at, checked, launch,
  run,
}
use aws_virtual_kubelet.Scenario.{small_env}
use aws_virtual_kubelet.Health.Loop.Invariant.{Inv, Steps-Inv}
use aws_virtual_kubelet.Health.Loop.Deadlock.{deadlock, is_over}
use aws_virtual_kubelet.Health.Loop.Finish.{can_stop}

abbrev watcher : Monitor
unfolding new_monitor
watcher = record (new_monitor 0 vkvma "vkvma.watch") { is_watcher = true }

-- Its loop, whose first stream is nil, once it has counted that as a failure.
abbrev missed : System
unfolding launch run
missed = record (launch (watcher ∷ [])) {
  watches =
      checked 3 7 (at (run watcher) (ready nil_stream)) true "Health check stream is nil" nothing
        (λ r. sending r true nil_stream)
      ∷ [];
}

Steps-Inv_example : Inv 3 missed
unfolding launch run new_monitor
Steps-Inv_example =
    Steps-Inv 3 false (watcher ∷ []) (record { failures = refl; state = refl }, tt)
      (later (later start (work (here (Move.connect nil_stream refl))))
        (work (here (Move.miss 7 refl refl))))

deadlock_example :
    (s : System) × Steps 3 false (launch (watcher ∷ [])) s
    × (s.cancelled ≡ true)
    × ((t : System) (steps : Steps 3 false s t) → is_over t ≡ false)
unfolding new_monitor
deadlock_example = deadlock 3 watcher [] refl

can_stop_example : (t : System) × Steps 3 false missed t × (is_over t ≡ true)
unfolding launch run new_monitor new_check_result
can_stop_example = can_stop 3 false missed ((cc), tt) tt (inr refl)
