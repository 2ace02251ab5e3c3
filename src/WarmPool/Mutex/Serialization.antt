-- ===== src/WarmPool/Mutex/Serialization.antt =====
-- The mutex of `VKState`: calls that read and write the state between Lock and Unlock only.
use mathlib.Core.Path.{fun_ext}
use aws_virtual_kubelet.Base.{
  ℕ, Bool, true, false, ◌≡◌, refl, sym, ap, ◌∙◌, subst, ◌⊎◌, inl, inr, ◌==◌, ==_iff, arith,
  Bool-cases,
}
use aws_virtual_kubelet.Process.{Process, done, Go, update}
use aws_virtual_kubelet.WarmPool.Mutex.{
  Program, stop, lock, unlock, reset, act, section, System, Step, acquire, release, renew, perform,
  Steps, start, later, IsFatal, unlock_of_unlocked, Serial, none_yet, pass,
}

module _ {W R : Type 0} where
  -- A call keeps to the mutex: it enters and leaves sections in turn and works within them only. The
  -- first argument says whether it is in a section.
  abbrev pub IsGuarded : Bool → Program W R → Type 0
  IsGuarded false (stop r) = Unit
  IsGuarded false (lock p) = IsGuarded true p
  IsGuarded true (unlock p) = IsGuarded false p
  IsGuarded true (act {A} m k) = (a : A) → IsGuarded true (k a)
  IsGuarded _ _ = ⊥

  pub update-same : (f : ℕ → Program W R) (i : ℕ) (p : Program W R) → update f i p i ≡ p
  update-same f i p = ground (arith, ==_iff i i)

  update-update :
      (f : ℕ → Program W R) (i : ℕ) (p q : Program W R) → update (update f i p) i q ≡ update f i q
  update-update f i p q = fun_ext (λ j. ground arith)

  update-id : (f : ℕ → Program W R) (i : ℕ) (p : Program W R) → f i ≡ p → update f i p ≡ f
  update-id f i p e = fun_ext (λ j. ground (arith, ==_iff j i, e))

  -- Every goroutine but one is outside of the sections.
  abbrev pub OthersOutside : ℕ → (ℕ → Program W R) → Type 0
  OthersOutside i now = (j : ℕ) → (j == i) ≡ false → IsGuarded false (now j)

  -- No goroutine holds the mutex, and all that was done was done section by section.
  pub record IsFree (s : Process W) (first : ℕ → Program W R) (sys : System W R) : Type 1 where
    pub unlocked : sys.locked ≡ false
    pub outside : (j : ℕ) → IsGuarded false (sys.goroutines j)
    pub serial : Serial s first sys.process sys.goroutines

  -- A goroutine is on the way through a section that it entered when nothing else was going on.
  pub record IsHeld (s : Process W) (first : ℕ → Program W R) (sys : System W R) : Type 1 where
    pub holder : ℕ
    pub entered : Program W R
    pub before : Process W
    pub locked : sys.locked ≡ true
    pub outside : OthersOutside holder sys.goroutines
    pub inside : IsGuarded true (sys.goroutines holder)
    pub serial : Serial s first before (update sys.goroutines holder (lock entered))
    pub same : section entered before ≡ section (sys.goroutines holder) sys.process

  abbrev pub Inv : Process W → (ℕ → Program W R) → System W R → Type 1
  Inv s first sys = IsFree s first sys ⊎ IsHeld s first sys

  holds :
      (now : ℕ → Program W R) (h i : ℕ) (p : Program W R)
      → OthersOutside h now
      → now i ≡ p
      → (IsGuarded false p → ⊥)
      → i ≡ h
  holds now h i p out e never = elim (Bool-cases (i == h)) [
    | inl same ↦ (==_iff i h).0 same
    | inr other ↦ absurd (never (subst (IsGuarded false) e (out i other)))
  ]

  IsGuarded-update :
      (b : Bool) (now : ℕ → Program W R) (i : ℕ) (p : Program W R)
      → IsGuarded b p
      → IsGuarded b (update now i p i)
  IsGuarded-update b now i p g = subst (IsGuarded b) (sym (update-same now i p)) g

  pub update-other :
      (f : ℕ → Program W R) (i j : ℕ) (p : Program W R) → (j == i) ≡ false → update f i p j ≡ f j
  update-other f i j p other = ground (arith, other)

  OthersOutside-update :
      (now : ℕ → Program W R) (i : ℕ) (p : Program W R)
      → OthersOutside i now
      → OthersOutside i (update now i p)
  OthersOutside-update now i p out j other =
      subst (IsGuarded false) (sym (update-other now i j p other)) (out j other)

  all_outside :
      (now : ℕ → Program W R) (i : ℕ) (p : Program W R)
      → OthersOutside i now
      → IsGuarded false p
      → (j : ℕ) → IsGuarded false (update now i p j)
  all_outside now i p out g j = elim (Bool-cases (j == i)) [
    | inl same ↦
        subst (λ k. IsGuarded false (update now i p k)) (sym ((==_iff j i).0 same))
          (IsGuarded-update false now i p g)
    | inr other ↦ OthersOutside-update now i p out j other
  ]

  module _ {s : Process W} {first : ℕ → Program W R} where
    acquire-IsHeld :
        (sys : System W R) (i : ℕ) (p : Program W R)
        → sys.goroutines i ≡ lock p
        → IsFree s first sys
        → IsHeld s first (record sys { locked = true; goroutines = update sys.goroutines i p })
    acquire-IsHeld sys i p e f = record {
      holder = i;
      entered = p;
      before = sys.process;
      locked = refl;
      outside = OthersOutside-update sys.goroutines i p (λ j _. f.outside j);
      inside = IsGuarded-update true sys.goroutines i p (subst (IsGuarded false) e (f.outside i));
      serial =
          subst (Serial s first sys.process)
            (sym
              (update-update sys.goroutines i p (lock p) ∙ update-id sys.goroutines i (lock p) e))
            f.serial;
      same = ap (λ q. section q sys.process) (sym (update-same sys.goroutines i p));
    }

    release-IsFree :
        (sys : System W R) (p : Program W R) (h : IsHeld s first sys)
        → sys.goroutines h.holder ≡ unlock p
        → IsFree s first
            (record sys { locked = false; goroutines = update sys.goroutines h.holder p })
    unfolding section
    release-IsFree sys p h e = record {
      unlocked = refl;
      outside = all_outside sys.goroutines h.holder p h.outside (subst (IsGuarded true) e h.inside);
      serial = subst (Serial s first sys.process) (update-update sys.goroutines h.holder _ p) (
          pass h.holder h.entered p h.serial (update-same sys.goroutines h.holder _)
            (h.same ∙ ap (λ q. section q sys.process) e));
    }

    perform-IsHeld :
        {A : Type 0} (sys : System W R) (m : Go W A) (k : A → Program W R) (a : A) (t : Process W)
        (h : IsHeld s first sys)
        → sys.goroutines h.holder ≡ act m k
        → m sys.process ≡ done a t
        → IsHeld s first
            (record sys { process = t; goroutines = update sys.goroutines h.holder (k a) })
    unfolding section
    perform-IsHeld sys m k a t h e d = record {
      holder = h.holder;
      entered = h.entered;
      before = h.before;
      locked = h.locked;
      outside = OthersOutside-update sys.goroutines h.holder (k a) h.outside;
      inside =
          IsGuarded-update true sys.goroutines h.holder (k a) (subst (IsGuarded true) e h.inside a);
      serial =
          subst (Serial s first h.before)
            (sym (update-update sys.goroutines h.holder (k a) (lock h.entered))) h.serial;
      same =
          h.same
          ∙ ap (λ q. section q sys.process) e
          ∙ (rw d refl)
          ∙ ap (λ q. section q t) (sym (update-same sys.goroutines h.holder (k a)));
    }

    -- In the free state the goroutine can only enter, and in the other one only the holder can move.
    free-Step :
        (i : ℕ) {sys next : System W R} → Step i sys next → IsFree s first sys → Inv s first next
    free-Step i {sys = sys} (acquire p e u) f = inr (acquire-IsHeld sys i p e f)
    free-Step i (release p e l) f = absurd (subst (IsGuarded false) e (f.outside i))
    free-Step i (renew p e) f = absurd (subst (IsGuarded false) e (f.outside i))
    free-Step i (perform m k a t e d) f = absurd (subst (IsGuarded false) e (f.outside i))

    held-Step :
        (i : ℕ) {sys next : System W R} → Step i sys next → IsHeld s first sys → Inv s first next
    held-Step i (acquire p e u) h = absurd (cc (h.locked, u))
    held-Step i {sys = sys} (release p e l) h =
        let same : i ≡ h.holder = holds sys.goroutines h.holder i (unlock p) h.outside e (λ g. g) in
        subst
          (λ j. Inv s first (record sys { locked = false; goroutines = update sys.goroutines j p }))
          (sym same) (inl (release-IsFree sys p h (ap sys.goroutines (sym same) ∙ e)))
    held-Step i {sys = sys} (renew p e) h =
        let same : i ≡ h.holder = holds sys.goroutines h.holder i (reset p) h.outside e (λ g. g) in
        absurd (subst (IsGuarded true) (ap sys.goroutines (sym same) ∙ e) h.inside)
    held-Step i {sys = sys} (perform m k a t e d) h =
        let same : i ≡ h.holder = holds sys.goroutines h.holder i (act m k) h.outside e (λ g. g) in
        subst
          (λ j.
            Inv s first (record sys { process = t; goroutines = update sys.goroutines j (k a) }))
          (sym same) (inr (perform-IsHeld sys m k a t h (ap sys.goroutines (sym same) ∙ e) d))

    Step-Inv :
        (i : ℕ) {sys next : System W R} → Step i sys next → Inv s first sys → Inv s first next
    Step-Inv i st (inl f) = free-Step i st f
    Step-Inv i st (inr h) = held-Step i st h

  -- The system of a process whose mutex is free.
  abbrev pub idle : Process W → (ℕ → Program W R) → System W R
  idle s first = record { locked = false; process = s; goroutines = first }

  pub Steps-Inv :
      (s : Process W) (first : ℕ → Program W R) {sys : System W R}
      → ((j : ℕ) → IsGuarded false (first j))
      → Steps (idle s first) sys
      → Inv s first sys
  Steps-Inv s first g start = inl (record { unlocked = refl; outside = g; serial = none_yet })
  Steps-Inv s first g (later i steps st) = Step-Inv i st (Steps-Inv s first g steps)

  Inv-IsFatal :
      (s : Process W) (first : ℕ → Program W R) (sys : System W R)
      → Inv s first sys
      → IsFatal sys
      → ⊥
  Inv-IsFatal s first sys (inl f) (unlock_of_unlocked i p e u) =
      absurd (subst (IsGuarded false) e (f.outside i))
  Inv-IsFatal s first sys (inr h) (unlock_of_unlocked i p e u) = absurd (cc (h.locked, u))

  Inv-Serial :
      (s : Process W) (first : ℕ → Program W R) (sys : System W R)
      → Inv s first sys
      → sys.locked ≡ false
      → Serial s first sys.process sys.goroutines
  Inv-Serial s first sys (inl f) u = f.serial
  Inv-Serial s first sys (inr h) u = absurd (cc (h.locked, u))

  -- Goroutines that read and write the state in sections of the mutex only, in any interleaving of
  -- their steps: no unlock is fatal, and whenever the mutex is free, the process and what the
  -- goroutines have left to do are as after sections that ran one after another, each at once.
  pub Steps-Serial :
      (s : Process W) (first : ℕ → Program W R) (sys : System W R)
      → ((j : ℕ) → IsGuarded false (first j))
      → Steps (idle s first) sys
      → (¬ IsFatal sys) × (sys.locked ≡ false → Serial s first sys.process sys.goroutines)
  Steps-Serial s first sys g steps = (
    Inv-IsFatal s first sys (Steps-Inv s first g steps),
    Inv-Serial s first sys (Steps-Inv s first g steps),
  )
