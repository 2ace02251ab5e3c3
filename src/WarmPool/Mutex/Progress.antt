-- ===== src/WarmPool/Mutex/Progress.antt =====
-- The mutex of `VKState`: every goroutine that calls a method which locks it can come to its end.
use aws_virtual_kubelet.Base.{ℕ, ◌≡◌, refl, sym, ap, ◌∙◌, true, false, Option, none, some, inl, inr}
use aws_virtual_kubelet.Cloud.{Env}
use aws_virtual_kubelet.Process.{Process, Outcome, done, crash, update}
use aws_virtual_kubelet.WarmPool.Mutex.{
  Program, stop, lock, unlock, reset, act, left, failed, section, System, acquire, release, perform,
  Steps, start, later,
}
use aws_virtual_kubelet.WarmPool.Mutex.Programs.{Result, Method, body, program, at_once}
use aws_virtual_kubelet.WarmPool.Mutex.Bodies.{leads_to, section-body, program-IsGuarded}
use aws_virtual_kubelet.WarmPool.Mutex.Serialization.{
  idle, Steps-Inv, Inv, IsFree, IsHeld, update-same,
}
use aws_virtual_kubelet.WarmPool.Mutex.Turns.{
  remainder, Explained, Serial-Explained, lock-injective, stop-ne-lock,
}

module _ {W R : Type 0} where
  Steps-trans : {s t u : System W R} → Steps s t → Steps t u → Steps s u
  Steps-trans first start = first
  Steps-trans first (later i steps st) = later i (Steps-trans first steps) st

  -- The mutex is free, with a process and what a goroutine has left to do.
  record Reached (s : System W R) (i : ℕ) (rest : Program W R) (u : Process W) : Type 1 where
    end : System W R
    steps : Steps s end
    free : end.locked ≡ false
    process : end.process ≡ u
    left_to_do : end.goroutines i ≡ rest

  -- The goroutine in a section goes through it.
  leave :
      (p : Program W R) (i : ℕ) (s : System W R) (rest : Program W R) (u : Process W)
      → s.goroutines i ≡ p
      → s.locked ≡ true
      → section p s.process ≡ left rest u
      → Reached s i rest u
  unfolding section
  leave (stop r) i s rest u e l sec = absurd (cc)
  leave (lock p) i s rest u e l sec = absurd (cc)
  leave (reset p) i s rest u e l sec = absurd (cc)
  leave (unlock p) i s rest u e l sec = record {
    end = record s { locked = false; goroutines = update s.goroutines i p };
    steps = later i start (release p e l);
    free = refl;
    process = cc;
    left_to_do = update-same s.goroutines i p ∙ (cc);
  }
  leave (act {A} m k) i s rest u e l sec =
      go (λ a next. leave (k a) i next rest u) (m s.process) refl sec
    where
      go :
          ((a : A) (next : System W R)
            → next.goroutines i ≡ k a
            → next.locked ≡ true
            → section (k a) next.process ≡ left rest u
            → Reached next i rest u)
          → (o : Outcome W A) → m s.process ≡ o
          → (elim o [ done a t ↦ section (k a) t | crash x t ↦ failed x t ]) ≡ left rest u
          → Reached s i rest u
      go more (done a t) d h =
          let r =
            more a (record s { process = t; goroutines = update s.goroutines i (k a) })
              (update-same s.goroutines i (k a)) l h in
          record {
            end = r.end;
            steps = Steps-trans (later i start (perform m k a t e d)) r.steps;
            free = r.free;
            process = r.process;
            left_to_do = r.left_to_do;
          }
      go more (crash x t) d h = absurd (cc)

-- A goroutine has come to its end.
pub record Ended {W : Type 0} (sys : System W Result) (i : ℕ) : Type 1 where
  pub result : Result
  pub end : System W Result
  pub steps : Steps sys end
  pub ended : end.goroutines i ≡ stop result

-- No method panics, whatever the process is like.
abbrev pub AllReturn : (W : Type 0) ⦃env : Env W⦄ → (ℕ → Method) → Type 0
AllReturn W methods =
    (j : ℕ) (t : Process W) → (r : Result) × (u : Process W) × (at_once (methods j) t ≡ done r u)

module _ {W : Type 0} ⦃env : Env W⦄ (methods : ℕ → Method) (s : Process W)
    (all_return : AllReturn W methods) where
  abbrev first : ℕ → Program W Result
  first i = program (methods i)

  section-returns :
      (j : ℕ) (t : Process W)
      → section (body (methods j)) t ≡ left (stop (all_return j t).0) (all_return j t).1
  section-returns j t = section-body (methods j) t ∙ ap leads_to (all_return j t).2

  -- A goroutine whose turn it is enters its section and leaves it.
  enter :
      (sys : System W Result) (i : ℕ)
      → sys.locked ≡ false
      → sys.goroutines i ≡ program (methods i)
      → Ended sys i
  enter sys i free waiting =
      let inside : System W Result = record sys {
        locked = true;
        goroutines = update sys.goroutines i (body (methods i));
      } in
      let r =
        leave (body (methods i)) i inside _ _ (update-same sys.goroutines i _) refl
          (section-returns i sys.process) in
      record {
        result = (all_return i sys.process).0;
        end = r.end;
        steps = Steps-trans (later i start (acquire (body (methods i)) waiting free)) r.steps;
        ended = r.left_to_do;
      }

  from_free : (sys : System W Result) (i : ℕ) → IsFree s first sys → Ended sys i
  from_free sys i f = go (Serial-Explained methods s f.serial)
    where
      go : Explained methods s sys.process sys.goroutines → Ended sys i
      go (results, turns, h) = by_result (results i) (h i)
        where
          by_result : (o : Option Result) → sys.goroutines i ≡ remainder (methods i) o → Ended sys i
          by_result none e = enter sys i f.unlocked e
          by_result (some r) e = record { result = r; end = sys; steps = start; ended = e }

  -- The goroutine that holds the mutex has come from the start of its method.
  held-entered :
      (sys : System W Result) (h : IsHeld s first sys) → body (methods h.holder) ≡ h.entered
  held-entered sys h = go (Serial-Explained methods s h.serial)
    where
      go :
          Explained methods s h.before (update sys.goroutines h.holder (lock h.entered))
          → body (methods h.holder) ≡ h.entered
      go (results, turns, e) =
          by_result (results h.holder)
            (sym (update-same sys.goroutines h.holder (lock h.entered)) ∙ e h.holder)
        where
          by_result :
              (o : Option Result)
              → lock h.entered ≡ remainder (methods h.holder) o
              → body (methods h.holder) ≡ h.entered
          by_result none same = lock-injective (body (methods h.holder)) h.entered (sym same)
          by_result (some r) same = absurd (stop-ne-lock r h.entered (sym same))

  from_held :
      (sys : System W Result) (h : IsHeld s first sys)
      → Reached sys h.holder
          (stop (all_return h.holder h.before).0)
          (all_return h.holder h.before).1
  from_held sys h = leave (sys.goroutines h.holder) h.holder sys _ _ refl h.locked (
      sym h.same
      ∙ ap (λ p. section p h.before) (sym (held-entered sys h))
      ∙ section-returns h.holder h.before)

  after_free : (sys : System W Result) (i : ℕ) → sys.locked ≡ false → Inv s first sys → Ended sys i
  after_free sys i free (inl f) = from_free sys i f
  after_free sys i free (inr h) = absurd (cc (h.locked, free))

  -- Goroutines that each call one of these methods, of which none panics: from every state that they
  -- reach, in any interleaving, there is a sequence of steps after which a given one has ended. So
  -- none of them waits for the mutex for ever unless the others are always preferred to it.
  pub can_end : (sys : System W Result) (i : ℕ) → Steps (idle s first) sys → Ended sys i
  can_end sys i steps = go (Steps-Inv s first (λ j. program-IsGuarded W (methods j)) steps)
    where
      go : Inv s first sys → Ended sys i
      go (inl f) = from_free sys i f
      go (inr h) =
          let r = from_held sys h in
          let e = after_free r.end i r.free (
            Steps-Inv s first (λ j. program-IsGuarded W (methods j)) (Steps-trans steps r.steps)) in
          record {
            result = e.result;
            end = e.end;
            steps = Steps-trans r.steps e.steps;
            ended = e.ended;
          }
