-- ===== src/Provider/Goroutines/Alone.antt =====
-- A call of CreatePod, UpdatePod or DeletePod that is stepped through with no other beside it.
use aws_virtual_kubelet.Base.{ℕ, zero, suc, ◌≤◌, ◌≡◌, refl, ap, ◌∙◌, none, some, arith}
use aws_virtual_kubelet.Cloud.{Env, Result, ok, err}
use aws_virtual_kubelet.Process.{Process, Outcome, done, crash, Go, ◌>>=◌, pure}
use aws_virtual_kubelet.Provider.{create_pod, update_pod, delete_pod}
use aws_virtual_kubelet.Provider.Goroutines.Remainder.{remainder, advance-remainder}
use aws_virtual_kubelet.Provider.Goroutines.{
  Goroutine, creating, caching, finding, choosing, using, connecting, launching, undoing, dropping,
  counting, marking, starting, telling, tallying, deleting, stopping, terminating, releasing,
  removing, reporting, updating, replacing, ended, advance,
}

-- The steps that a call has before it, at most.
abbrev left : Goroutine → ℕ
left (creating pod) = 11
left (caching pod monitor notifier) = 10
left (finding pod monitor key) = 9
left (choosing pod monitor key b) = 8
left (using pod monitor key c) = 7
left (connecting pod monitor id) = 6
left (launching pod monitor id c) = 5
left (undoing pod e) = 3
left (dropping pod e) = 2
left (counting e) = 1
left (marking pod monitor id) = 4
left (starting pod monitor) = 3
left (telling pod) = 2
left tallying = 1
left (deleting pod) = 6
left (stopping pod key m) = 5
left (terminating pod key m) = 4
left (releasing pod key r) = 3
left (removing pod key) = 2
left (reporting pod) = 1
left (updating pod) = 2
left (replacing pod key m) = 1
left (ended r) = 0

left-ended : (g : Goroutine) → left g ≤ 0 → (r : Result (Unit {0})) × (g ≡ ended r)
left-ended (creating pod) h = absurd (omega arith)
left-ended (caching pod monitor notifier) h = absurd (omega arith)
left-ended (finding pod monitor key) h = absurd (omega arith)
left-ended (choosing pod monitor key b) h = absurd (omega arith)
left-ended (using pod monitor key c) h = absurd (omega arith)
left-ended (connecting pod monitor id) h = absurd (omega arith)
left-ended (launching pod monitor id c) h = absurd (omega arith)
left-ended (undoing pod e) h = absurd (omega arith)
left-ended (dropping pod e) h = absurd (omega arith)
left-ended (counting e) h = absurd (omega arith)
left-ended (marking pod monitor id) h = absurd (omega arith)
left-ended (starting pod monitor) h = absurd (omega arith)
left-ended (telling pod) h = absurd (omega arith)
left-ended tallying h = absurd (omega arith)
left-ended (deleting pod) h = absurd (omega arith)
left-ended (stopping pod key m) h = absurd (omega arith)
left-ended (terminating pod key m) h = absurd (omega arith)
left-ended (releasing pod key r) h = absurd (omega arith)
left-ended (removing pod key) h = absurd (omega arith)
left-ended (reporting pod) h = absurd (omega arith)
left-ended (updating pod) h = absurd (omega arith)
left-ended (replacing pod key m) h = absurd (omega arith)
left-ended (ended r) h = (r, refl)

module _ {W : Type 0} ⦃env : Env W⦄ where
  abbrev IsCloser : ℕ → Outcome W Goroutine → Type 0
  IsCloser n (done g _) = left g ≤ n
  IsCloser n (crash _ _) = Unit

  advance-IsCloser :
      (n : ℕ) (g : Goroutine) (s : Process W) → left g ≤ suc n → IsCloser n (advance g s)
  unfolding advance
  advance-IsCloser n (creating pod) s h = ground arith
  advance-IsCloser n (caching pod monitor notifier) s h = ground arith
  advance-IsCloser n (finding pod monitor key) s h = ground arith
  advance-IsCloser n (choosing pod monitor key b) s h = ground arith
  advance-IsCloser n (using pod monitor key (err e)) s h = ground arith
  advance-IsCloser n (using pod monitor key (ok (id, ip))) s h = ground arith
  advance-IsCloser n (connecting pod monitor id) s h = ground arith
  advance-IsCloser n (launching pod monitor id (err e)) s h = ground arith
  advance-IsCloser n (launching pod monitor id (ok c)) s h = ground arith
  advance-IsCloser n (undoing pod e) s h = ground arith
  advance-IsCloser n (dropping pod e) s h = ground arith
  advance-IsCloser n (counting e) s h = ground arith
  advance-IsCloser n (marking pod monitor id) s h = ground arith
  advance-IsCloser n (starting pod monitor) s h = ground arith
  advance-IsCloser n (telling pod) s h = ground arith
  advance-IsCloser n tallying s h = ground arith
  advance-IsCloser n (deleting pod) s h = ground arith
  advance-IsCloser n (stopping pod key none) s h = ground arith
  advance-IsCloser n (stopping pod key (some m)) s h = ground arith
  advance-IsCloser n (terminating pod key m) s h = ground arith
  advance-IsCloser n (releasing pod key r) s h = ground arith
  advance-IsCloser n (removing pod key) s h = ground arith
  advance-IsCloser n (reporting pod) s h = ground arith
  advance-IsCloser n (updating pod) s h = ground arith
  advance-IsCloser n (replacing pod key m) s h = ground arith
  advance-IsCloser n (ended r) s h = ground arith

  -- A number of steps of one call, with no other beside it.
  unfoldable pub work : ℕ → Goroutine → Go W Goroutine
  unfolding advance
  work zero g = pure g
  work (suc n) g = do next ← advance g; work n next

  abbrev closed : Outcome W (Result (Unit {0})) → Outcome W Goroutine
  closed (done r t) = done (ended r) t
  closed (crash e t) = crash e t

  work-remainder :
      (n : ℕ) (g : Goroutine) (s : Process W)
      → left g ≤ n
      → work n g s ≡ (remainder g >>= λ r. pure (ended r)) s
  unfolding work
  work-remainder zero g s h = let e = left-ended g h in rw e.1 (unfold remainder in refl)
  work-remainder (suc n) g s h =
      go (λ next t closer. work-remainder n next t closer) (advance g s) (advance-IsCloser n g s h)
      ∙ ap closed (advance-remainder g s)
    where
      go :
          ((next : Goroutine) (t : Process W)
            → left next ≤ n
            → work n next t ≡ (remainder next >>= λ r. pure (ended r)) t)
          → (o : Outcome W Goroutine) → IsCloser n o
          → (elim o [ done next t ↦ work n next t | crash e t ↦ crash e t ])
            ≡ closed (elim o [ done next t ↦ remainder next t | crash e t ↦ crash e t ])
      go more (done next t) closer = more next t closer
      go more (crash e t) closer = refl

  -- A call of CreatePod, UpdatePod or DeletePod that is stepped through with no other beside it
  -- comes to its end within eleven steps, or to the panic of the method, with the result of the
  -- method and the process that the method leaves.
  pub work-at_once :
      (pod : ℕ) (s : Process W)
      → (work 11 (creating pod) s ≡ (create_pod pod >>= λ r. pure (ended r)) s)
        × (work 11 (updating pod) s ≡ (update_pod pod >>= λ r. pure (ended r)) s)
        × (work 11 (deleting pod) s ≡ (delete_pod pod >>= λ r. pure (ended r)) s)
  unfolding remainder
  work-at_once pod s = (
    work-remainder 11 (creating pod) s (omega arith),
    work-remainder 11 (updating pod) s (omega arith),
    work-remainder 11 (deleting pod) s (omega arith),
  )
