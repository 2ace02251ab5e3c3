-- ===== src/Health/Loop.antt =====
-- internal/health/monitor.go and handler.go: the goroutines of a pod monitor, interleaved in any
-- order. Each stands at one of its blocking points; what lies between two of these is one step.
pub mod Invariant
pub mod Deadlock
pub mod Finish
use aws_virtual_kubelet.Base.{
  ℕ, ◌≡◌, ◌≢◌, String, Bool, true, false, List, [], ◌∷◌, map, Option, none, some, if◌then◌else◌,
}
use aws_virtual_kubelet.Health.Monitor.{
  Monitor, CheckData, CheckResult, nothing, pod_status, nil_pod_status, other, new_check_result,
}
use aws_virtual_kubelet.Health.PodMonitor.{running_monitor, stopped_monitor}

-- The dynamic type of `stream` in the watch loop.
pub data Stream : Type 0 where
  nil_stream health_stream app_stream unknown_stream : Stream

-- What a failed `Recv` puts into its result: of the health stream a nil `*HealthCheckResponse`.
unfoldable pub failed_data : Stream → CheckData
failed_data health_stream = other
failed_data _ = nothing

-- What a received message puts into its result: of the application's stream its `PodStatus`.
pub data Received : Stream → CheckData → Type 0 where
  health : Received health_stream nothing
  app : (status : CheckData) → status ≢ nothing → status ≢ other → Received app_stream status

-- Where a loop stands. `top` to `sleeping` are places of `startWatchLoop`, `checking` to `resting` of
-- `startCheckLoop`.
pub data Pc : Type 0 where
  -- the head of the loop, and before the `select` once there may be a stream
  top ready : Stream → Pc
  -- in `Recv`, and after an error of it
  receiving failed : Stream → Pc
  -- in `m.handlerReceiver <- result`; after it, the loop sleeps and drops its stream, or goes on
  sending : CheckResult → (retry : Bool) → Stream → Pc
  sleeping : Stream → Pc
  checking : Pc
  -- in the `select` that sends the result or sees the cancellation
  offering : CheckResult → Pc
  resting : Pc
  finished : Pc

-- One loop: its monitor, where it stands, and, for the theorems only, the outcomes of its checks so
-- far, the latest first (`true` is a failure).
pub record Watch : Type 0 where
  pub monitor : Monitor
  pub pc : Pc
  pub history : List Bool

abbrev pub at : Watch → Pc → Watch
at w pc = record w { pc = pc }

-- `NewCheckResult`, which updates the monitor, and the way on to `pc` with the result.
abbrev pub checked :
    (threshold now : ℕ) → Watch → Bool → String → CheckData → (CheckResult → Pc) → Watch
checked threshold now w failure message content pc =
    let result = (new_check_result threshold now w.monitor failure message content).0 in
    record { monitor = result.monitor; pc = pc result; history = failure ∷ w.history }

-- The return of a loop that has seen the cancellation.
abbrev pub ended : Watch → Watch
ended w = record w { monitor = stopped_monitor w.monitor; pc = finished }

-- after a send: the loop sleeps and connects anew, or takes the next message of its stream
unfoldable pub after_send : Bool → Stream → Pc
after_send true stream = sleeping nil_stream
after_send false stream = top stream

-- The steps of one loop, while its context is cancelled or not. A step that sends carries the result.
pub data Move (threshold : ℕ) (cancelled : Bool) (w : Watch)
    : Option CheckResult → Watch → Type 0 where
  -- `stream = m.getStream(ctx, m)`, which gives a stream of the monitor's kind, or nil
  connect :
      (stream : Stream)
      → w.pc ≡ top nil_stream
      → Move threshold cancelled w none (at w (ready stream))
  keep :
      (stream : Stream)
      → stream ≢ nil_stream
      → w.pc ≡ top stream
      → Move threshold cancelled w none (at w (ready stream))
  stop :
      (stream : Stream)
      → cancelled ≡ true
      → w.pc ≡ ready stream
      → Move threshold cancelled w none (ended w)
  wait :
      (stream : Stream)
      → cancelled ≡ false
      → stream ≢ nil_stream
      → stream ≢ unknown_stream
      → w.pc ≡ ready stream
      → Move threshold cancelled w none (at w (receiving stream))
  receive :
      (now : ℕ) (stream : Stream) (content : CheckData)
      → Received stream content
      → w.pc ≡ receiving stream
      → Move threshold cancelled w none (
          checked threshold now w false "application health stream received status" content
            (λ r. sending r false stream))
  -- an error of `Recv`, which the cancellation of the context brings about too
  break :
      (stream : Stream)
      → w.pc ≡ receiving stream
      → Move threshold cancelled w none (at w (failed stream))
  give_up :
      (stream : Stream)
      → cancelled ≡ true
      → w.pc ≡ failed stream
      → Move threshold cancelled w none (ended w)
  report :
      (now : ℕ) (message : String) (stream : Stream)
      → cancelled ≡ false
      → w.pc ≡ failed stream
      → Move threshold cancelled w none
          (checked threshold now w true message (failed_data stream) (λ r. sending r true stream))
  miss :
      (now : ℕ)
      → cancelled ≡ false
      → w.pc ≡ ready nil_stream
      → Move threshold cancelled w none (
          checked threshold now w true "Health check stream is nil" nothing
            (λ r. sending r true nil_stream))
  ignore :
      cancelled ≡ false
      → w.pc ≡ ready unknown_stream
      → Move threshold cancelled w none (at w (sleeping unknown_stream))
  send :
      (result : CheckResult) (retry : Bool) (stream : Stream)
      → w.pc ≡ sending result retry stream
      → Move threshold cancelled w (some result) (at w (after_send retry stream))
  wake :
      (stream : Stream)
      → w.pc ≡ sleeping stream
      → Move threshold cancelled w none (at w (top stream))
  -- `m.check(ctx, m)`: a result that the check has made for its monitor
  check :
      (now : ℕ) (failure : Bool) (message : String) (content : CheckData)
      → w.pc ≡ checking
      → Move threshold cancelled w none (checked threshold now w failure message content offering)
  drop :
      (result : CheckResult)
      → cancelled ≡ true
      → w.pc ≡ offering result
      → Move threshold cancelled w none (ended w)
  offer :
      (result : CheckResult)
      → w.pc ≡ offering result
      → Move threshold cancelled w (some result) (at w resting)
  rest : w.pc ≡ resting → Move threshold cancelled w none (at w checking)

-- A step of one of several loops.
pub data Moves (threshold : ℕ) (cancelled : Bool)
    : List Watch → Option CheckResult → List Watch → Type 0 where
  here :
      {w w' : Watch} {ws : List Watch} {sent : Option CheckResult}
      → Move threshold cancelled w sent w'
      → Moves threshold cancelled (w ∷ ws) sent (w' ∷ ws)
  there :
      {w : Watch} {ws ws' : List Watch} {sent : Option CheckResult}
      → Moves threshold cancelled ws sent ws'
      → Moves threshold cancelled (w ∷ ws) sent (w ∷ ws')

-- The goroutine of `receive`: in its `select`, in `handleCheckResult`, or returned.
pub data Receiver : Type 0 where
  listening : Receiver
  handling : CheckResult → Receiver
  halted : Receiver

pub record System : Type 0 where
  pub cancelled : Bool
  pub receiver : Receiver
  pub watches : List Watch
  -- the results that handlers have taken, the latest first
  pub taken : List CheckResult

-- The steps of a started pod monitor. The channel has no buffer: a result goes over when a receiver
-- takes it. `shared` says that another pod's monitor receives on the same handler's channel. A
-- receiver that handles a nil `*PodStatus` has no step: it panics, which ends the process. The other
-- receiver takes and handles a result in one step.
pub data Step (threshold : ℕ) (shared : Bool) (s : System) : System → Type 0 where
  cancel : Step threshold shared s (record s { cancelled = true })
  work :
      {ws : List Watch}
      → Moves threshold s.cancelled s.watches none ws
      → Step threshold shared s (record s { watches = ws })
  take :
      {ws : List Watch} (result : CheckResult)
      → s.receiver ≡ listening
      → Moves threshold s.cancelled s.watches (some result) ws
      → Step threshold shared s
          (record s { watches = ws; receiver = handling result; taken = result ∷ s.taken })
  take_elsewhere :
      {ws : List Watch} (result : CheckResult)
      → shared ≡ true
      → result.content ≢ nil_pod_status
      → Moves threshold s.cancelled s.watches (some result) ws
      → Step threshold shared s (record s { watches = ws; taken = result ∷ s.taken })
  handled :
      (result : CheckResult)
      → result.content ≢ nil_pod_status
      → s.receiver ≡ handling result
      → Step threshold shared s (record s { receiver = listening })
  halt :
      s.cancelled ≡ true
      → s.receiver ≡ listening
      → Step threshold shared s (record s { receiver = halted })

pub data Steps (threshold : ℕ) (shared : Bool) (s : System) : System → Type 0 where
  start : Steps threshold shared s s
  later :
      {t u : System}
      → Steps threshold shared s t
      → Step threshold shared t u
      → Steps threshold shared s u

-- `Run` of a monitor, and `Start` of all.
unfoldable pub run : Monitor → Watch
unfolding running_monitor
run m = record {
  monitor = running_monitor m;
  pc = if m.is_watcher then top nil_stream else checking;
  history = [];
}

unfoldable pub launch : List Monitor → System
unfolding run
launch monitors = record {
  cancelled = false;
  receiver = listening;
  watches = map run monitors;
  taken = [];
}
