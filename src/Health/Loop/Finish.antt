-- ===== src/Health/Loop/Finish.antt =====
-- Stop can return wherever the loops stand, as long as a receiver takes what they still send and
-- handles it without a panic.
use aws_virtual_kubelet.Base.{
  All, ◌≢◌, ℕ, ◌≡◌, refl, Bool, true, false, List, [], ◌∷◌, none, some, ◌⊎◌, arith,
}
use aws_virtual_kubelet.Health.Monitor.{CheckResult, nothing, nil_pod_status, new_check_result}
use aws_virtual_kubelet.Health.Loop.{
  Stream, nil_stream, health_stream, app_stream, unknown_stream, Pc, top, ready, receiving, failed,
  sending, sleeping, checking, offering, resting, finished, Watch, at, checked, ended, Move, Moves,
  here, there, System, Step, cancel, work, take, take_elsewhere, handled, halt, Receiver, listening,
  handling, halted, Steps, start, later, after_send,
}
use aws_virtual_kubelet.Health.Loop.Invariant.{is_finished, is_halted}
use aws_virtual_kubelet.Health.Loop.Deadlock.{all_finished, is_over}

-- What the loop sends next, if it is about to, can be handled.
abbrev pub Sends : Pc → Type 0
Sends (sending r retry stream) = r.content ≢ nil_pod_status
Sends _ = Unit

-- What the receiver handles can be handled.
abbrev pub Handles : Receiver → Type 0
Handles (handling r) = r.content ≢ nil_pod_status
Handles _ = Unit

module _ (threshold : ℕ) where
  -- A way of one loop through steps after the cancellation.
  data Way : Watch → Watch → Type 0 where
    stay : {w : Watch} → Way w w
    silent : {w v u : Watch} → Move threshold true w none v → Way v u → Way w u
    deliver :
        {w v u : Watch} (r : CheckResult)
        → r.content ≢ nil_pod_status
        → Move threshold true w (some r) v
        → Way v u
        → Way w u

  record Ends (w : Watch) : Type 0 where
    last : Watch
    way : Way w last
    is_last : is_finished last.pc ≡ true

  first : {w v : Watch} → Move threshold true w none v → Ends v → Ends w
  first m e = record { last = e.last; way = silent m e.way; is_last = e.is_last }

  ended-Ends : (w : Watch) → Ends (ended w)
  ended-Ends w = record { last = ended w; way = stay; is_last = refl }

  ready-Ends : (w : Watch) (s : Stream) → w.pc ≡ ready s → Ends w
  ready-Ends w s e = first (Move.stop s refl e) (ended-Ends w)

  top-Ends : (w : Watch) (s : Stream) → w.pc ≡ top s → Ends w
  top-Ends w nil_stream e =
      first (Move.connect nil_stream e) (ready-Ends (at w (ready nil_stream)) nil_stream refl)
  top-Ends w health_stream e =
      first (Move.keep health_stream (cc) e) (ready-Ends (at w (ready health_stream)) _ refl)
  top-Ends w app_stream e =
      first (Move.keep app_stream (cc) e) (ready-Ends (at w (ready app_stream)) _ refl)
  top-Ends w unknown_stream e =
      first (Move.keep unknown_stream (cc) e) (ready-Ends (at w (ready unknown_stream)) _ refl)

  sleeping-Ends : (w : Watch) (s : Stream) → w.pc ≡ sleeping s → Ends w
  sleeping-Ends w s e = first (Move.wake s e) (top-Ends (at w (top s)) s refl)

  after_send-Ends : (w : Watch) (retry : Bool) (s : Stream) → Ends (at w (after_send retry s))
  unfolding after_send
  after_send-Ends w true s = sleeping-Ends (at w (sleeping nil_stream)) nil_stream refl
  after_send-Ends w false s = top-Ends (at w (top s)) s refl

  checking-Ends : (w : Watch) → w.pc ≡ checking → Ends w
  checking-Ends w e =
      let v = checked threshold 0 w false "" nothing offering in
      let result = (new_check_result threshold 0 w.monitor false "" nothing).0 in
      first (Move.check 0 false "" nothing e) (first (Move.drop result refl refl) (ended-Ends v))

  watch-Ends : (w : Watch) (pc : Pc) → Sends pc → w.pc ≡ pc → Ends w
  watch-Ends w (top s) n e = top-Ends w s e
  watch-Ends w (ready s) n e = ready-Ends w s e
  watch-Ends w (receiving s) n e =
      first (Move.break s e) (first (Move.give_up s refl refl) (ended-Ends (at w (failed s))))
  watch-Ends w (failed s) n e = first (Move.give_up s refl e) (ended-Ends w)
  watch-Ends w (sending r retry s) n e =
      let rest = after_send-Ends w retry s in
      record {
        last = rest.last;
        way = deliver r n (Move.send r retry s e) rest.way;
        is_last = rest.is_last;
      }
  watch-Ends w (sleeping s) n e = sleeping-Ends w s e
  watch-Ends w checking n e = checking-Ends w e
  watch-Ends w (offering r) n e = first (Move.drop r refl e) (ended-Ends w)
  watch-Ends w resting n e = first (Move.rest e) (checking-Ends (at w checking) refl)
  watch-Ends w finished n e = record { last = w; way = stay; is_last = ground arith }

  -- A way of all loops.
  data Ways : List Watch → List Watch → Type 0 where
    stay : {ws : List Watch} → Ways ws ws
    silent : {ws vs us : List Watch} → Moves threshold true ws none vs → Ways vs us → Ways ws us
    deliver :
        {ws vs us : List Watch} (r : CheckResult)
        → r.content ≢ nil_pod_status
        → Moves threshold true ws (some r) vs
        → Ways vs us
        → Ways ws us

  lift : {w v : Watch} {ws us : List Watch} → Way w v → Ways (v ∷ ws) us → Ways (w ∷ ws) us
  lift Way.stay k = k
  lift (Way.silent m way) k = Ways.silent (here m) (lift way k)
  lift (Way.deliver r n m way) k = Ways.deliver r n (here m) (lift way k)

  under : (w : Watch) {ws us : List Watch} → Ways ws us → Ways (w ∷ ws) (w ∷ us)
  under w Ways.stay = Ways.stay
  under w (Ways.silent m ways) = Ways.silent (there m) (under w ways)
  under w (Ways.deliver r n m ways) = Ways.deliver r n (there m) (under w ways)

  watches-Ends :
      (ws : List Watch)
      → All (λ w. Sends w.pc) ws
      → (us : List Watch) × Ways ws us × (all_finished us ≡ true)
  watches-Ends [] h = ([], Ways.stay, refl)
  watches-Ends (w ∷ ws) h =
      let e = watch-Ends w w.pc h.0 refl in
      let (us, ways, over) = watches-Ends ws h.1 in
      (e.last ∷ us, lift e.way (under e.last ways), ground (arith, e.is_last, over))

  -- A cancelled system.
  abbrev system : Receiver → List Watch → List CheckResult → System
  system r ws taken = record { cancelled = true; receiver = r; watches = ws; taken = taken }

  prepend :
      {shared : Bool} {s t u : System}
      → Step threshold shared s t
      → Steps threshold shared t u
      → Steps threshold shared s u
  prepend st start = later start st
  prepend st (later steps last) = later (prepend st steps) last

  -- The receiver takes each result and handles it.
  own_receiver :
      (shared : Bool) (taken : List CheckResult) {ws us : List Watch}
      → Ways ws us
      → (k : List CheckResult) × Steps threshold shared
          (system listening ws taken)
          (system listening us k)
  own_receiver shared taken Ways.stay = (taken, start)
  own_receiver shared taken (Ways.silent m ways) =
      let (k, steps) = own_receiver shared taken ways in (k, prepend (work m) steps)
  own_receiver shared taken (Ways.deliver r n m ways) =
      let (k, steps) = own_receiver shared (r ∷ taken) ways in
      (k, prepend (take r refl m) (prepend (handled r n refl) steps))

  -- Another pod's receiver takes them.
  other_receiver :
      (taken : List CheckResult) {ws us : List Watch}
      → Ways ws us
      → (k : List CheckResult) × Steps threshold true (system halted ws taken) (system halted us k)
  other_receiver taken Ways.stay = (taken, start)
  other_receiver taken (Ways.silent m ways) =
      let (k, steps) = other_receiver taken ways in (k, prepend (work m) steps)
  other_receiver taken (Ways.deliver r n m ways) =
      let (k, steps) = other_receiver (r ∷ taken) ways in
      (k, prepend (take_elsewhere r refl n m) steps)

  abbrev Over : Bool → System → Type 0
  Over shared s = (t : System) × Steps threshold shared s t × (is_over t ≡ true)

  listening-Over :
      (shared : Bool) (ws : List Watch) (taken : List CheckResult)
      → All (λ w. Sends w.pc) ws
      → Over shared (system listening ws taken)
  listening-Over shared ws taken sends =
      let (us, ways, over) = watches-Ends ws sends in
      let (k, steps) = own_receiver shared taken ways in
      (system halted us k, later steps (halt refl refl), over)

  halted-Over :
      (ws : List Watch) (taken : List CheckResult)
      → All (λ w. Sends w.pc) ws
      → Over true (system halted ws taken)
  halted-Over ws taken sends =
      let (us, ways, over) = watches-Ends ws sends in
      let (k, steps) = other_receiver taken ways in (system halted us k, steps, over)

  before :
      {shared : Bool} {s t : System} → Step threshold shared s t → Over shared t → Over shared s
  before st (u, steps, over) = (u, prepend st steps, over)

  cancelled-Over :
      (shared : Bool) (r : Receiver) (ws : List Watch) (taken : List CheckResult)
      → All (λ w. Sends w.pc) ws
      → Handles r
      → (shared ≡ true) ⊎ (is_halted r ≡ false)
      → Over shared (system r ws taken)
  cancelled-Over shared listening ws taken sends n serves = listening-Over shared ws taken sends
  cancelled-Over shared (handling r) ws taken sends n serves =
      before (handled r n refl) (listening-Over shared ws taken sends)
  cancelled-Over true halted ws taken sends n serves = halted-Over ws taken sends
  cancelled-Over false halted ws taken sends n serves = absurd (ground arith)

  -- From every state of a pod monitor in which neither a loop is about to send a nil PodStatus nor the
  -- receiver handles one, and in which the receiver has not returned, or another pod's monitor receives
  -- on its channel: there is a sequence of steps after which all loops and the receiver are over, so
  -- that Stop returns.
  pub can_stop :
      (shared : Bool) (s : System)
      → All (λ w. Sends w.pc) s.watches
      → Handles s.receiver
      → (shared ≡ true) ⊎ (is_halted s.receiver ≡ false)
      → (t : System) × Steps threshold shared s t × (is_over t ≡ true)
  can_stop shared s sends handles serves =
      before cancel (cancelled-Over shared s.receiver s.watches s.taken sends handles serves)
