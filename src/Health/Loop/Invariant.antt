-- ===== src/Health/Loop/Invariant.antt =====
-- The monitors of the running loops: they follow the histories of their checks.
use aws_virtual_kubelet.Base.{
  ℕ, ◌≡◌, Bool, true, false, ◌&&◌, not, List, [], ◌∷◌, map, All, Option, arith, if◌then◌else◌,
}
use aws_virtual_kubelet.Health.Monitor.{Monitor, MonitoringState, CheckResult, new_check_result}
use aws_virtual_kubelet.Health.PodMonitor.{running_monitor, stopped_monitor}
use aws_virtual_kubelet.Health.Threshold.{failures_in_a_row, expected_state}
use aws_virtual_kubelet.Health.Loop.{
  Pc, finished, Watch, Move, Moves, here, there, System, Step, cancel, work, take, take_elsewhere,
  handled, halt, Receiver, halted, Steps, start, later, launch, run, after_send,
}

abbrev pub is_finished : Pc → Bool
is_finished finished = true
is_finished _ = false

-- What a monitor shows of the history of its loop.
pub record Follows (threshold : ℕ) (cancelled : Bool) (w : Watch) : Type 0 where
  pub failures : w.monitor.failures ≡ failures_in_a_row w.history
  pub state :
      w.monitor.state
      ≡ (if is_finished w.pc then MonitoringState.unknown else expected_state threshold w.history)
  pub monitoring : w.monitor.is_monitoring ≡ not (is_finished w.pc)
  pub over : (is_finished w.pc && not cancelled) ≡ false

module _ (threshold : ℕ) (cancelled : Bool) where
  Move-Follows :
      {w w' : Watch} {sent : Option CheckResult}
      → Move threshold cancelled w sent w'
      → Follows threshold cancelled w
      → Follows threshold cancelled w'
  unfolding new_check_result stopped_monitor expected_state after_send
  Move-Follows (Move.connect s e) f = ground arith
  Move-Follows (Move.keep s n e) f = ground arith
  Move-Follows (Move.stop s c e) f = ground arith
  Move-Follows (Move.wait s c n u e) f = ground arith
  Move-Follows (Move.receive now s d r e) f = ground arith
  Move-Follows (Move.break s e) f = ground arith
  Move-Follows (Move.give_up s c e) f = ground arith
  Move-Follows (Move.report now m s c e) f = ground arith
  Move-Follows (Move.miss now c e) f = ground arith
  Move-Follows (Move.ignore c e) f = ground arith
  Move-Follows (Move.send r true s e) f = ground arith
  Move-Follows (Move.send r false s e) f = ground arith
  Move-Follows (Move.wake s e) f = ground arith
  Move-Follows (Move.check now true m d e) f = ground arith
  Move-Follows (Move.check now false m d e) f = ground arith
  Move-Follows (Move.drop r c e) f = ground arith
  Move-Follows (Move.offer r e) f = ground arith
  Move-Follows (Move.rest e) f = ground arith

  Moves-Follows :
      {ws ws' : List Watch} {sent : Option CheckResult}
      → Moves threshold cancelled ws sent ws'
      → All (Follows threshold cancelled) ws
      → All (Follows threshold cancelled) ws'
  Moves-Follows (here m) fs = (Move-Follows m fs.0, fs.1)
  Moves-Follows (there m) fs = (fs.0, Moves-Follows m fs.1)

-- A cancellation takes nothing away.
All-cancel :
    (threshold : ℕ) (cancelled : Bool) (ws : List Watch)
    → All (Follows threshold cancelled) ws
    → All (Follows threshold true) ws
All-cancel threshold cancelled [] fs = tt
All-cancel threshold cancelled (w ∷ ws) fs =
    (ground (arith, fs.0), All-cancel threshold cancelled ws fs.1)

abbrev pub is_halted : Receiver → Bool
is_halted halted = true
is_halted _ = false

-- In a system, all loops follow their histories, and the receiver halts after a cancellation only.
pub record Inv (threshold : ℕ) (s : System) : Type 0 where
  pub watches : All (Follows threshold s.cancelled) s.watches
  pub receiver : (is_halted s.receiver && not s.cancelled) ≡ false

Step-Inv :
    {threshold : ℕ} {shared : Bool} {s t : System}
    → Step threshold shared s t
    → Inv threshold s
    → Inv threshold t
Step-Inv {threshold} {s = s} cancel i = record {
  watches = All-cancel threshold s.cancelled s.watches i.watches;
  receiver = ground arith;
}
Step-Inv {threshold} {s = s} (work m) i = record {
  watches = Moves-Follows threshold s.cancelled m i.watches;
  receiver = i.receiver;
}
Step-Inv {threshold} {s = s} (take r l m) i = record {
  watches = Moves-Follows threshold s.cancelled m i.watches;
  receiver = ground arith;
}
Step-Inv {threshold} {s = s} (take_elsewhere r sh n m) i = record {
  watches = Moves-Follows threshold s.cancelled m i.watches;
  receiver = i.receiver;
}
Step-Inv (handled r n h) i = record { watches = i.watches; receiver = ground arith }
Step-Inv (halt c l) i = record { watches = i.watches; receiver = ground arith }

-- A monitor as NewMonitor makes it.
pub record IsNew (m : Monitor) : Type 0 where
  pub failures : m.failures ≡ 0
  pub state : m.state ≡ MonitoringState.unknown

launch-Follows :
    (threshold : ℕ) (monitors : List Monitor)
    → All IsNew monitors
    → All (Follows threshold false) (map run monitors)
unfolding run running_monitor expected_state
launch-Follows threshold [] new = tt
launch-Follows threshold (m ∷ ms) new = (ground (arith, new.0), launch-Follows threshold ms new.1)

-- However the loops of new monitors are interleaved with each other, with the handler and with a
-- cancellation: the failures that a monitor counts are those since its last success, its state is
-- the one that the history of its checks calls for, and when its loop has returned it is unknown and
-- is monitored no more; a loop returns, and the handler halts, after a cancellation only.
pub Steps-Inv :
    (threshold : ℕ) (shared : Bool) (monitors : List Monitor)
    → All IsNew monitors
    → {t : System} → Steps threshold shared (launch monitors) t
    → Inv threshold t
unfolding launch
Steps-Inv threshold shared monitors new start = record {
  watches = launch-Follows threshold monitors new;
  receiver = ground arith;
}
Steps-Inv threshold shared monitors new (later steps st) =
    Step-Inv st (Steps-Inv threshold shared monitors new steps)
