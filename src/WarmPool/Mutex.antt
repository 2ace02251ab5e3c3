-- ===== src/WarmPool/Mutex.antt =====
-- The mutex of `VKState` in internal/ec2provider/warmpool.go: the calls of several goroutines, which
-- interleave between the steps of their bodies.
pub mod Programs
pub mod Serialization
pub mod Bodies
pub mod Turns
pub mod Progress
pub mod Overlap
use aws_virtual_kubelet.Base.{ℕ, String, Bool, true, false, ◌≡◌}
use aws_virtual_kubelet.Process.{Process, Outcome, done, crash, Go, update}
use aws_virtual_kubelet.WarmPool.State.{empty_state}

-- A call of a goroutine, with what it still has to do: `Lock` and `Unlock` of the mutex, a step of
-- its body, and the assignment of a new `State{}`, which has a mutex of its own.
pub data Program (W : Type 0) (R : Type 0) : Type 1 where
  stop : R → Program W R
  lock unlock reset : Program W R → Program W R
  act : {A : Type 0} → Go W A → (A → Program W R) → Program W R

-- What a section that is entered leads to: the rest of the call once it has unlocked.
pub data Section (W : Type 0) (R : Type 0) : Type 1 where
  left : Program W R → Process W → Section W R
  failed : String → Process W → Section W R

-- `VKState = State{}` and the making of its maps
abbrev pub renewed : {W : Type 0} → Process W → Process W
renewed s = record s { vk_state = empty_state }

module _ {W R : Type 0} where
  -- The call with no other beside it.
  unfoldable pub alone : Program W R → Go W R
  alone (stop r) s = done r s
  alone (lock p) s = alone p s
  alone (unlock p) s = alone p s
  alone (reset p) s = alone p (renewed s)
  alone (act m k) s = elim (m s) [ done a t ↦ alone (k a) t | crash e t ↦ crash e t ]

  unfoldable pub section : Program W R → Process W → Section W R
  section (unlock p) s = left p s
  section (act m k) s = elim (m s) [ done a t ↦ section (k a) t | crash e t ↦ failed e t ]
  section p s = failed "" s

-- The process, its mutex, and the goroutines by number.
pub record System (W R : Type 0) : Type 1 where
  pub locked : Bool
  pub process : Process W
  pub goroutines : ℕ → Program W R

module _ {W R : Type 0} where
  -- A step of the goroutine with the given number.
  pub data Step (i : ℕ) (s : System W R) : System W R → Type 1 where
    acquire :
        (p : Program W R)
        → s.goroutines i ≡ lock p
        → s.locked ≡ false
        → Step i s (record s { locked = true; goroutines = update s.goroutines i p })
    release :
        (p : Program W R)
        → s.goroutines i ≡ unlock p
        → s.locked ≡ true
        → Step i s (record s { locked = false; goroutines = update s.goroutines i p })
    renew :
        (p : Program W R)
        → s.goroutines i ≡ reset p
        → Step i s (record {
          locked = false;
          process = renewed s.process;
          goroutines = update s.goroutines i p;
        })
    perform :
        {A : Type 0} (m : Go W A) (k : A → Program W R) (a : A) (t : Process W)
        → s.goroutines i ≡ act m k
        → m s.process ≡ done a t
        → Step i s (record s { process = t; goroutines = update s.goroutines i (k a) })

  pub data Steps (s : System W R) : System W R → Type 1 where
    start : Steps s s
    later : {t u : System W R} (i : ℕ) → Steps s t → Step i t u → Steps s u

  -- `fatal error: sync: unlock of unlocked mutex` ends the process.
  pub data IsFatal (s : System W R) : Type 1 where
    unlock_of_unlocked :
        (i : ℕ) (p : Program W R) → s.goroutines i ≡ unlock p → s.locked ≡ false → IsFatal s

  -- The specification: one goroutine after the other passes through a section as a whole.
  pub data Serial (s : Process W) (goroutines : ℕ → Program W R)
      : Process W → (ℕ → Program W R) → Type 1 where
    none_yet : Serial s goroutines s goroutines
    pass :
        {t u : Process W} {now : ℕ → Program W R} (i : ℕ) (p rest : Program W R)
        → Serial s goroutines t now
        → now i ≡ lock p
        → section p t ≡ left rest u
        → Serial s goroutines u (update now i rest)
