-- ===== src/Process/Frame.antt =====
-- What an operation leaves alone: all of the process but the world, the warm pool, the contents of
-- pods and the counters; and of the pod `q` its name and namespace.
use aws_virtual_kubelet.Base.{ℕ, String, ◌≡◌, subst, arith}
use aws_virtual_kubelet.Cloud.{Result, ok, err}
use aws_virtual_kubelet.Process.{Process, Go, Outcome, done, crash, ◌>>=◌, after}

pub record Keeps {W : Type 0} (q : ℕ) (s t : Process W) : Type 0 where
  pub name : (t.pods q).name ≡ (s.pods q).name
  pub namespace : (t.pods q).namespace ≡ (s.pods q).namespace
  pub config : t.config ≡ s.config
  pub node_name : t.node_name ≡ s.node_name
  pub cache : t.cache ≡ s.cache
  pub pod_monitors : t.pod_monitors ≡ s.pod_monitors
  pub next_monitor : t.next_monitor ≡ s.next_monitor
  pub receiving : t.receiving ≡ s.receiving
  pub default_handler : t.default_handler ≡ s.default_handler
  pub notifier_set : t.notifier_set ≡ s.notifier_set
  pub notified : t.notified ≡ s.notified

pub Keeps-refl : {W : Type 0} (q : ℕ) (s : Process W) → Keeps q s s
Keeps-refl q s = ground arith

pub Keeps-trans : {W : Type 0} {q : ℕ} {s t u : Process W} → Keeps q s t → Keeps q t u → Keeps q s u
Keeps-trans h k = ground arith

-- Two steps, of which each keeps what is to be kept.
pub >>=-Keeps :
    {W A B : Type 0} {q : ℕ} (m : Go W A) (f : A → Go W B) (s : Process W)
    → Keeps q s (after (m s))
    → ((a : A) (t : Process W) → Keeps q t (after (f a t)))
    → Keeps q s (after ((m >>= f) s))
>>=-Keeps {q = q} m f s h k = go (m s) h
  where
    go :
        (o : Outcome _ _)
        → Keeps q s (after o)
        → Keeps q s (after (elim o [ done a t ↦ f a t | crash e t ↦ crash e t ]))
    go (done a t) h = Keeps-trans h (k a t)
    go (crash e t) h = h

-- What holds when a method returns without an error, and what when it returns with one.
abbrev pub Ends :
    {W A : Type 0} → (Process W → Type 0) → (Process W → Type 0) → Outcome W (Result A) → Type 0
Ends P Q (done (ok _) t) = P t
Ends P Q (done (err _) t) = Q t
Ends P Q (crash _ _) = Unit

abbrev pub Returns : {W A : Type 0} → (Process W → Type 0) → Outcome W A → Type 0
Returns P (done _ t) = P t
Returns P (crash _ _) = Unit

-- A step that keeps what is to be kept, before the rest of a method.
pub >>=-Ends :
    {W A B : Type 0} (P Q : Process W → Type 0) {q : ℕ} (m : Go W A) (f : A → Go W (Result B))
    (s : Process W)
    → Keeps q s (after (m s))
    → ((a : A) (t : Process W) → Keeps q s t → Ends P Q (f a t))
    → Ends P Q ((m >>= f) s)
>>=-Ends {W} {A} P Q {q} m f s h k = go (m s) h
  where
    go :
        (o : Outcome W A)
        → Keeps q s (after o)
        → Ends P Q (elim o [ done a t ↦ f a t | crash e t ↦ crash e t ])
    go (done a t) h = k a t h
    go (crash e t) h = tt

pub Ends-ok :
    {W A : Type 0} (P Q : Process W → Type 0) {o : Outcome W (Result A)} {a : A} {t : Process W}
    → Ends P Q o
    → o ≡ done (ok a) t
    → P t
Ends-ok P Q h e = subst (Ends P Q) e h

pub Ends-err :
    {W A : Type 0} (P Q : Process W → Type 0) {o : Outcome W (Result A)} {e : String}
    {t : Process W}
    → Ends P Q o
    → o ≡ done (err e) t
    → Q t
Ends-err P Q h e = subst (Ends P Q) e h

-- Either end of a method that returns gives what is wanted.
pub Ends-Returns :
    {W A : Type 0} (P Q R : Process W → Type 0) (o : Outcome W (Result A))
    → ((t : Process W) → P t → R t)
    → ((t : Process W) → Q t → R t)
    → Ends P Q o
    → Returns R o
Ends-Returns P Q R (done (ok a) t) p q h = p t h
Ends-Returns P Q R (done (err e) t) p q h = q t h
Ends-Returns P Q R (crash e t) p q h = tt

pub >>=-Returns :
    {W A B : Type 0} (P Q : Process W → Type 0) (m : Go W A) (f : A → Go W B) (s : Process W)
    → Returns P (m s)
    → ((a : A) (t : Process W) → P t → Returns Q (f a t))
    → Returns Q ((m >>= f) s)
>>=-Returns P Q m f s h k = go (m s) h
  where
    go :
        (o : Outcome _ _)
        → Returns P o
        → Returns Q (elim o [ done a t ↦ f a t | crash e t ↦ crash e t ])
    go (done a t) h = k a t h
    go (crash e t) h = tt

pub Returns-done :
    {W A : Type 0} (P : Process W → Type 0) {o : Outcome W A} {a : A} {t : Process W}
    → Returns P o
    → o ≡ done a t
    → P t
Returns-done P h e = subst (Returns P) e h

pub after-Returns :
    {W A : Type 0} (P : Process W → Type 0) (o : Outcome W A) → P (after o) → Returns P o
after-Returns P (done a t) h = h
after-Returns P (crash e t) h = tt
