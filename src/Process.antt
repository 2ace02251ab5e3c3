-- ===== src/Process.antt =====
-- The state of one provider process, and the monad in which its methods run.
pub mod Frame
use aws_virtual_kubelet.Base.{
  ℕ, String, Bool, List, [], ◌∷◌, Option, none, some, Table, ◌==◌, if◌then◌else◌,
}
use aws_virtual_kubelet.Kube.{Pod}
use aws_virtual_kubelet.Config.{ProviderConfig}
use aws_virtual_kubelet.Metrics.{Metric}
use aws_virtual_kubelet.Health.PodMonitor.{PodMonitor}
use aws_virtual_kubelet.WarmPool.State.{State}

-- internal/ec2provider/metapod.go; `pod` and `monitor` are pointers.
pub record MetaPod : Type 0 where
  pub pod : ℕ
  pub monitor : Option ℕ
  pub notifier : Bool

-- Pods, pod monitors and check handlers are shared by pointers: they stand in stores.
pub record Process (W : Type 0) : Type 0 where
  pub world : W
  pub config : ProviderConfig
  pub node_name : String
  pub vk_state : State
  pub pods : ℕ → Pod
  pub next_pod : ℕ
  pub pod_monitors : ℕ → PodMonitor
  pub next_monitor : ℕ
  -- `IsReceiving` of each handler
  pub receiving : ℕ → Bool
  pub next_handler : ℕ
  pub default_handler : ℕ
  pub cache : Table MetaPod
  -- whether `NotifyPods` has set the callback, and what it has been called with, the latest first
  pub notifier_set : Bool
  pub notified : List Pod
  -- the counters incremented, the latest first
  pub metrics : List Metric

-- `crash` is a panic, or the exit of `klog.Fatalf`.
pub data Outcome (W : Type 0) (A : Type 0) : Type 0 where
  done : A → Process W → Outcome W A
  crash : String → Process W → Outcome W A

abbrev pub Go : Type 0 → Type 0 → Type 0
Go W A = Process W → Outcome W A

-- The process when the call is over, one way or the other.
abbrev pub after : {W A : Type 0} → Outcome W A → Process W
after (done a s) = s
after (crash e s) = s

module _ {W : Type 0} where
  abbrev pub pure : {A : Type 0} → A → Go W A
  pure a s = done a s

  abbrev pub panic : {A : Type 0} → String → Go W A
  panic e s = crash e s

  infixl 5 ◌>>=◌ ◌>>◌
  abbrev pub ◌>>=◌ : {A B : Type 0} → Go W A → (A → Go W B) → Go W B
  ◌>>=◌ m f s = elim (m s) [ done a t ↦ f a t | crash e t ↦ crash e t ]

  abbrev pub ◌>>◌ : {B : Type 0} → Go W (Unit {0}) → Go W B → Go W B
  m >> k = m >>= λ _. k

  abbrev pub get : Go W (Process W)
  get s = done s s

  abbrev pub modify : (Process W → Process W) → Go W (Unit {0})
  modify f s = done tt (f s)

  -- A call that leaves the program.
  abbrev pub call : {A : Type 0} → (W → A × W) → Go W A
  call f s = done (f s.world).0 (record s { world = (f s.world).1 })

  abbrev pub inc : Metric → Go W (Unit {0})
  inc m = modify λ s. record s { metrics = m ∷ s.metrics }

  -- `*p`, and `xs[0]`
  abbrev pub deref : {A : Type 0} → Option A → Go W A
  deref none = panic "nil pointer dereference"
  deref (some a) = pure a

  abbrev pub index_zero : {A : Type 0} → List A → Go W A
  index_zero [] = panic "index out of range"
  index_zero (a ∷ _) = pure a

-- A write to a store.
abbrev pub update {ℓ} : {A : Type ℓ} (store : ℕ → A) (pointer : ℕ) → A → ℕ → A
update store pointer content q = if pointer == q then content else store q
