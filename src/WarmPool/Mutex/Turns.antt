-- ===== src/WarmPool/Mutex/Turns.antt =====
-- The methods of the warm pool that lock `VKState`, called by several goroutines.
use aws_virtual_kubelet.Base.{
  ℕ, ◌≡◌, refl, sym, ap, ◌∙◌, Option, none, some, Bool, true, false, ◌==◌, if◌then◌else◌,
}
use aws_virtual_kubelet.Cloud.{Env}
use aws_virtual_kubelet.Process.{Process, Outcome, done, crash, update}
use aws_virtual_kubelet.WarmPool.Mutex.{
  Program, stop, lock, left, section, System, Steps, IsFatal, Serial, none_yet, pass,
}
use aws_virtual_kubelet.WarmPool.Mutex.Programs.{Result, Method, body, program, at_once}
use aws_virtual_kubelet.WarmPool.Mutex.Bodies.{leads_to, section-body, program-IsGuarded}
use aws_virtual_kubelet.WarmPool.Mutex.Serialization.{idle, Steps-Serial}

module _ {W : Type 0} ⦃env : Env W⦄ where
  -- What is left to do of a method that may have ended.
  abbrev pub remainder : Method → Option Result → Program W Result
  remainder m none = program m
  remainder m (some r) = stop r

  -- The specification: the methods of the goroutines run one after another, each at once. What they
  -- have returned.
  pub data InTurn (methods : ℕ → Method) (s : Process W)
      : Process W → (ℕ → Option Result) → Type 0 where
    nobody : InTurn methods s s (λ _. none)
    turn :
        {t u : Process W} {results : ℕ → Option Result} (i : ℕ) (r : Result)
        → InTurn methods s t results
        → results i ≡ none
        → at_once (methods i) t ≡ done r u
        → InTurn methods s u (update results i (some r))

  -- The goroutines have done just that.
  abbrev pub Explained : (ℕ → Method) → Process W → Process W → (ℕ → Program W Result) → Type 1
  Explained methods s t now =
      (results : ℕ → Option Result) × InTurn methods s t results
      × ((i : ℕ) → now i ≡ remainder (methods i) (results i))

  inner : Program W Result → Program W Result
  inner (lock p) = p
  inner p = p

  pub lock-injective : (p q : Program W Result) → lock p ≡ lock q → p ≡ q
  unfolding inner
  lock-injective p q e = ap inner e

  is_lock : Program W Result → Bool
  is_lock (lock p) = true
  is_lock _ = false

  pub stop-ne-lock : (r : Result) (p : Program W Result) → stop r ≡ lock p → ⊥
  unfolding is_lock
  stop-ne-lock r p e = absurd (cc)

  remainder-update :
      (methods : ℕ → Method) (results : ℕ → Option Result) (now : ℕ → Program W Result) (i : ℕ)
      (r : Result) (rest : Program W Result)
      → rest ≡ stop r
      → ((j : ℕ) → now j ≡ remainder (methods j) (results j))
      → (j : ℕ) → update now i rest j ≡ remainder (methods j) (update results i (some r) j)
  remainder-update methods results now i r rest e h j = go (i == j)
    where
      go :
          (b : Bool)
          → (if b then rest else now j) ≡ remainder (methods j) (if b then some r else results j)
      go true = e
      go false = h j

  -- The turn of a goroutine that passes through its section.
  take_turn :
      (methods : ℕ → Method) (s t u : Process W) (now : ℕ → Program W Result) (i : ℕ)
      (p rest : Program W Result) (results : ℕ → Option Result)
      → InTurn methods s t results
      → ((j : ℕ) → now j ≡ remainder (methods j) (results j))
      → results i ≡ none
      → (o : Outcome W Result) → at_once (methods i) t ≡ o
      → leads_to o ≡ left rest u
      → Explained methods s u (update now i rest)
  take_turn methods s t u now i p rest results turns h fresh (done r v) a e = (
    update results i (some r),
    turn i r turns fresh (a ∙ (cc)),
    remainder-update methods results now i r rest (cc) h,
  )
  take_turn methods s t u now i p rest results turns h fresh (crash m v) a e = absurd (cc)

  pass_turn :
      (methods : ℕ → Method) (s t u : Process W) (now : ℕ → Program W Result) (i : ℕ)
      (p rest : Program W Result)
      → now i ≡ lock p
      → section p t ≡ left rest u
      → Explained methods s t now
      → Explained methods s u (update now i rest)
  pass_turn methods s t u now i p rest e sec (results, turns, h) = go (results i) refl
    where
      go : (o : Option Result) → results i ≡ o → Explained methods s u (update now i rest)
      go none fresh =
          let same : body (methods i) ≡ p =
            lock-injective (body (methods i)) p
              (sym (h i ∙ ap (remainder (methods i)) fresh) ∙ e) in
          take_turn methods s t u now i p rest results turns h fresh (at_once (methods i) t) refl
            (sym (section-body (methods i) t) ∙ ap (λ q. section q t) same ∙ sec)
      go (some r) over = absurd (stop-ne-lock r p (sym (h i ∙ ap (remainder (methods i)) over) ∙ e))

  pub Serial-Explained :
      (methods : ℕ → Method) (s : Process W) {t : Process W} {now : ℕ → Program W Result}
      → Serial s (λ i. program (methods i)) t now
      → Explained methods s t now
  Serial-Explained methods s none_yet = (λ _. none, nobody, λ _. refl)
  Serial-Explained methods s (pass {t} {u} {now} i p rest serial e sec) =
      pass_turn methods s t u now i p rest e sec (Serial-Explained methods s serial)

  -- Goroutines that each call CheckWarmPoolDepth, RemoveFromWarmPool, RemoveFromReadyState,
  -- RemoveFromUnhealthyState or the end of GetWarmPoolInstanceIfExist, in any interleaving of their
  -- steps: no unlock is fatal, and whenever the mutex is free, the process is as after the methods of
  -- some goroutines that ran one after another, each at once; these have ended with the results that
  -- they had then, and the others have not begun.
  pub Steps-InTurn :
      (methods : ℕ → Method) (s : Process W) (sys : System W Result)
      → Steps (idle s (λ i. program (methods i))) sys
      → (IsFatal sys → ⊥) × (sys.locked ≡ false → Explained methods s sys.process sys.goroutines)
  Steps-InTurn methods s sys steps =
      let all =
        Steps-Serial s (λ i. program (methods i)) sys (λ j. program-IsGuarded W (methods j))
          steps in
      (all.0, λ free. Serial-Explained methods s (all.1 free))
