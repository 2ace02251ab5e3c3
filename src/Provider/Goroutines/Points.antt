-- ===== src/Provider/Goroutines/Points.antt =====
-- The points of a call of CreatePod, UpdatePod or DeletePod, and the key that it is for.
use aws_virtual_kubelet.Base.{ℕ, ◌≡◌, ◌∙◌, String, Option, none, some}
use aws_virtual_kubelet.Process.{Process, MetaPod, Outcome, done, crash, Go, ◌>>=◌, after}
use aws_virtual_kubelet.Process.Frame.{Keeps, Returns, after-Returns}
use aws_virtual_kubelet.Provider.{pod_key}
use aws_virtual_kubelet.Provider.Goroutines.{
  Goroutine, creating, caching, finding, choosing, using, connecting, launching, undoing, dropping,
  counting, marking, starting, telling, tallying, deleting, stopping, terminating, releasing,
  removing, reporting, updating, replacing, ended,
}
use aws_virtual_kubelet.Provider.Goroutines.Owners.{
  Belongs, MayBelong, IsOwned, Moves, Calm, Keeps-Calm, Calm-Moves, Calm-IsOwned, Moves-Belongs,
  Moves-MayBelong, Moves-trans,
}

abbrev pub monitor_of : Option MetaPod → Option ℕ
monitor_of none = none
monitor_of (some e) = e.monitor

module _ {W : Type 0} where
  -- A call for a key: its variables are of that key.
  abbrev pub IsAt : String → Process W → Goroutine → Type 0
  IsAt key s (creating pod) = pod_key (s.pods pod) ≡ key
  IsAt key s (caching pod m notifier) = (pod_key (s.pods pod) ≡ key) × Belongs s key m
  IsAt key s (finding pod m k) = (k ≡ key) × (pod_key (s.pods pod) ≡ key) × Belongs s key m
  IsAt key s (choosing pod m k b) = (k ≡ key) × (pod_key (s.pods pod) ≡ key) × Belongs s key m
  IsAt key s (using pod m k c) = (k ≡ key) × (pod_key (s.pods pod) ≡ key) × Belongs s key m
  IsAt key s (connecting pod m id) = (pod_key (s.pods pod) ≡ key) × Belongs s key m
  IsAt key s (launching pod m id c) = (pod_key (s.pods pod) ≡ key) × Belongs s key m
  IsAt key s (undoing pod e) = pod_key (s.pods pod) ≡ key
  IsAt key s (dropping pod e) = pod_key (s.pods pod) ≡ key
  IsAt key s (counting e) = Unit
  IsAt key s (marking pod m id) = Belongs s key m
  IsAt key s (starting pod m) = Belongs s key m
  IsAt key s (telling pod) = Unit
  IsAt key s tallying = Unit
  IsAt key s (deleting pod) = pod_key (s.pods pod) ≡ key
  IsAt key s (stopping pod k e) = (k ≡ key) × MayBelong s key (monitor_of e)
  IsAt key s (terminating pod k e) = k ≡ key
  IsAt key s (releasing pod k r) = k ≡ key
  IsAt key s (removing pod k) = k ≡ key
  IsAt key s (reporting pod) = Unit
  IsAt key s (updating pod) = pod_key (s.pods pod) ≡ key
  IsAt key s (replacing pod k e) = (k ≡ key) × MayBelong s key e.monitor
  IsAt key s (ended r) = Unit

  -- It stays so, whatever call moves.
  pub Moves-IsAt :
      (key : String) (g : Goroutine) {k : String} {s t : Process W}
      → Moves k s t
      → IsAt key s g
      → IsAt key t g
  Moves-IsAt key (creating pod) v a = v.names pod ∙ a
  Moves-IsAt key (caching pod m n) v a = (v.names pod ∙ a.0, Moves-Belongs v a.1)
  Moves-IsAt key (finding pod m k) v a = (a.0, v.names pod ∙ a.1, Moves-Belongs v a.2)
  Moves-IsAt key (choosing pod m k b) v a = (a.0, v.names pod ∙ a.1, Moves-Belongs v a.2)
  Moves-IsAt key (using pod m k c) v a = (a.0, v.names pod ∙ a.1, Moves-Belongs v a.2)
  Moves-IsAt key (connecting pod m id) v a = (v.names pod ∙ a.0, Moves-Belongs v a.1)
  Moves-IsAt key (launching pod m id c) v a = (v.names pod ∙ a.0, Moves-Belongs v a.1)
  Moves-IsAt key (undoing pod e) v a = v.names pod ∙ a
  Moves-IsAt key (dropping pod e) v a = v.names pod ∙ a
  Moves-IsAt key (counting e) v a = tt
  Moves-IsAt key (marking pod m id) v a = Moves-Belongs v a
  Moves-IsAt key (starting pod m) v a = Moves-Belongs v a
  Moves-IsAt key (telling pod) v a = tt
  Moves-IsAt key tallying v a = tt
  Moves-IsAt key (deleting pod) v a = v.names pod ∙ a
  Moves-IsAt key (stopping pod k e) v a = (a.0, Moves-MayBelong key (monitor_of e) v a.1)
  Moves-IsAt key (terminating pod k e) v a = a
  Moves-IsAt key (releasing pod k r) v a = a
  Moves-IsAt key (removing pod k) v a = a
  Moves-IsAt key (reporting pod) v a = tt
  Moves-IsAt key (updating pod) v a = v.names pod ∙ a
  Moves-IsAt key (replacing pod k e) v a = (a.0, Moves-MayBelong key e.monitor v a.1)
  Moves-IsAt key (ended r) v a = tt

  pub record Stepped (key : String) (s : Process W) (g : Goroutine) (t : Process W) : Type 0 where
    pub owned : IsOwned t
    pub at : IsAt key t g
    pub moves : Moves key s t

  -- What holds of the point and of the process after a step that does not panic.
  abbrev pub Holds : (Goroutine → Process W → Type 0) → Outcome W Goroutine → Type 0
  Holds P (done g t) = P g t
  Holds P (crash e t) = Unit

  abbrev pub Goes : String → Process W → Outcome W Goroutine → Type 0
  Goes key s = Holds (Stepped key s)

  -- A step that is calm, to a point whose variables were of the key before.
  pub calm :
      (key : String) (g : Goroutine) {s t : Process W}
      → IsOwned s
      → Calm s t
      → IsAt key s g
      → Stepped key s g t
  calm key g h c a = record {
    owned = Calm-IsOwned c h;
    at = Moves-IsAt key g (Calm-Moves key c) a;
    moves = Calm-Moves key c;
  }

  pub Holds-Calm :
      {A : Type 0} (P : Goroutine → Process W → Type 0) (m : Go W A) (f : A → Go W Goroutine)
      (s : Process W)
      → Returns (Calm s) (m s)
      → ((a : A) (t : Process W) → Calm s t → Holds P (f a t))
      → Holds P ((m >>= f) s)
  Holds-Calm {A} P m f s keeps k = go (m s) keeps
    where
      go :
          (o : Outcome W A)
          → Returns (Calm s) o
          → Holds P (elim o [ done a t ↦ f a t | crash e t ↦ crash e t ])
      go (done a t) c = k a t c
      go (crash e t) c = tt

  pub Goes-Calm :
      {A : Type 0} (key : String) (m : Go W A) (f : A → Go W Goroutine) (s : Process W)
      → Returns (Calm s) (m s)
      → ((a : A) (t : Process W) → Calm s t → Goes key s (f a t))
      → Goes key s ((m >>= f) s)
  Goes-Calm key m f s keeps k = Holds-Calm (Stepped key s) m f s keeps k

  pub Keeps-Returns :
      {A : Type 0} (s : Process W) (o : Outcome W A)
      → ((q : ℕ) → Keeps q s (after o))
      → Returns (Calm s) o
  Keeps-Returns s o keeps = after-Returns (Calm s) o (Keeps-Calm keeps)

  -- A calm step before another one.
  pub Goes-before :
      (key : String) {s u : Process W} (o : Outcome W Goroutine)
      → Calm s u
      → Goes key u o
      → Goes key s o
  Goes-before key (done g t) c v = record {
    owned = v.owned;
    at = v.at;
    moves = Moves-trans (Calm-Moves key c) v.moves;
  }
  Goes-before key (crash e t) c v = tt
