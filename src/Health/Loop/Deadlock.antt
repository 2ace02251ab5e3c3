-- ===== src/Health/Loop/Deadlock.antt =====
-- Stop waits for all loops and for the handler: when it waits for ever.
use aws_virtual_kubelet.Base.{
  ℕ, ◌≡◌, refl, Bool, true, false, ◌&&◌, ◌||◌, List, [], ◌∷◌, none, arith,
}
use aws_virtual_kubelet.Health.Monitor.{Monitor, new_check_result}
use aws_virtual_kubelet.Health.Loop.{
  Pc, sending, nil_stream, Watch, Move, Moves, here, there, System, Step, cancel, work, take,
  take_elsewhere, handled, halt, halted, Steps, start, later, launch, run,
}
use aws_virtual_kubelet.Health.Loop.Invariant.{is_finished, is_halted}

-- A loop is in a send that does not look at the context.
abbrev pub is_sending : Pc → Bool
is_sending (sending r retry stream) = true
is_sending _ = false

abbrev pub any_sending : List Watch → Bool
any_sending [] = false
any_sending (w ∷ ws) = is_sending w.pc || any_sending ws

abbrev pub all_finished : List Watch → Bool
all_finished [] = true
all_finished (w ∷ ws) = is_finished w.pc && all_finished ws

-- The wait group's counter is at zero, and `Stop` returns.
abbrev pub is_over : System → Bool
is_over s = is_halted s.receiver && all_finished s.watches

-- A loop sends, and the handler has returned.
pub record Stuck (s : System) : Type 0 where
  pub receiver : s.receiver ≡ halted
  pub waiting : any_sending s.watches ≡ true

Stuck-is_over : (s : System) → Stuck s → is_over s ≡ false
Stuck-is_over s k = go s.watches k.waiting
  where
    go :
        (ws : List Watch)
        → any_sending ws ≡ true
        → (is_halted s.receiver && all_finished ws) ≡ false
    go [] h = absurd (cc)
    go (w ∷ ws) h = ground (arith, k.receiver, go ws)

module _ {threshold : ℕ} where
  silent_move :
      {cancelled : Bool} {w w' : Watch}
      → Move threshold cancelled w none w'
      → is_sending w.pc ≡ false
  silent_move (Move.connect s e) = ground arith
  silent_move (Move.keep s n e) = ground arith
  silent_move (Move.stop s c e) = ground arith
  silent_move (Move.wait s c n u e) = ground arith
  silent_move (Move.receive now s d r e) = ground arith
  silent_move (Move.break s e) = ground arith
  silent_move (Move.give_up s c e) = ground arith
  silent_move (Move.report now m s c e) = ground arith
  silent_move (Move.miss now c e) = ground arith
  silent_move (Move.ignore c e) = ground arith
  silent_move (Move.wake s e) = ground arith
  silent_move (Move.check now f m d e) = ground arith
  silent_move (Move.drop r c e) = ground arith
  silent_move (Move.rest e) = ground arith

  Moves-any_sending :
      {cancelled : Bool} {ws ws' : List Watch}
      → Moves threshold cancelled ws none ws'
      → any_sending ws ≡ true
      → any_sending ws' ≡ true
  Moves-any_sending (here m) h = ground (arith, silent_move m)
  Moves-any_sending (there m) h = ground (arith, Moves-any_sending m)

  Step-Stuck : {s t : System} → Step threshold false s t → Stuck s → Stuck t
  Step-Stuck cancel k = record { receiver = k.receiver; waiting = k.waiting }
  Step-Stuck (work m) k = record { receiver = k.receiver; waiting = Moves-any_sending m k.waiting }
  Step-Stuck (take r l m) k = absurd (ground (arith, k.receiver))
  Step-Stuck (take_elsewhere r e n m) k = absurd (cc)
  Step-Stuck (handled r n h) k = absurd (ground (arith, k.receiver))
  Step-Stuck (halt c l) k = absurd (ground (arith, k.receiver))

  Steps-Stuck : {s t : System} → Steps threshold false s t → Stuck s → Stuck t
  Steps-Stuck start k = k
  Steps-Stuck (later steps st) k = Step-Stuck st (Steps-Stuck steps k)

-- Every pod monitor with a watch loop can come to a state after its cancellation from which Stop never
-- returns, whatever its goroutines do then, while no other pod's monitor receives on the same
-- handler: the loop sends a result to a handler that has returned, and does not look at its context.
pub deadlock :
    (threshold : ℕ) (m : Monitor) (ms : List Monitor)
    → m.is_watcher ≡ true
    → (s : System) × Steps threshold false (launch (m ∷ ms)) s
      × (s.cancelled ≡ true)
      × ((t : System) (steps : Steps threshold false s t) → is_over t ≡ false)
unfolding launch run new_check_result
deadlock threshold m ms watcher = (
  _,
  later
      (later
        (later (later start (work (here (Move.connect nil_stream (ground arith)))))
          (work (here (Move.miss 0 refl refl))))
        cancel)
      (halt refl refl),
  refl,
  λ t steps. Stuck-is_over t (Steps-Stuck steps (record { receiver = refl; waiting = refl })),
)
