-- ===== src/Metrics/Registration.antt =====
-- internal/metrics/vk_metrics.go: the registration of the counters when the process starts.
use Prim.Native.Char.{Char, code}
use aws_virtual_kubelet.Base.{
  ◌≡◌, refl, ◌∙◌, String, str_eq, eq_iff, Bool, true, false, ◌&&◌, ◌||◌, not, List, [], ◌∷◌, Option,
  none, some, leb, ◌==◌, arith,
}
use aws_virtual_kubelet.Metrics.{Metric, declared, registered}

-- A metric name of Prometheus: letters, digits, underscores and colons, and no digit in front.
is_letter : Char → Bool
is_letter c =
    let n = code c in
    (leb b'a' n && leb n b'z') || (leb b'A' n && leb n b'Z') || n == b'_' || n == b':'

is_digit : Char → Bool
is_digit c = leb b'0' (code c) && leb (code c) b'9'

all_name_characters : String → Bool
unfolding is_letter is_digit
all_name_characters String.[] = true
all_name_characters (String.◌∷◌ c s) = (is_letter c || is_digit c) && all_name_characters s

unfoldable pub is_metric_name : String → Bool
unfolding is_letter all_name_characters
is_metric_name String.[] = false
is_metric_name (String.◌∷◌ c s) = is_letter c && all_name_characters s

abbrev pub has_name : String → List Metric → Bool
has_name n [] = false
has_name n (m ∷ ms) = str_eq m.name n || has_name n ms

-- The registries of the Prometheus library: `Register` takes a counter with a name that it does not
-- know yet, and then knows it.
pub record Prometheus (R : Type 0) : Type 0 where
  pub knows : R → String → Bool
  pub register : Metric → R → Option R
  pub register-fresh :
      (m : Metric) (r : R)
      → is_metric_name m.name ≡ true
      → knows r m.name ≡ false
      → (s : R) × (register m r ≡ some s)
        × ((n : String) → knows s n ≡ (str_eq m.name n || knows r n))

-- The default registry of the library, and that of controller-runtime.
pub record Registries (R : Type 0) : Type 0 where
  pub default_registerer : R
  pub registry : R

module _ {R : Type 0} (prometheus : Prometheus R) where
  -- `MustRegister`, which panics if `Register` returns an error
  unfoldable pub must_register : List Metric → R → Option R
  must_register [] r = some r
  must_register (m ∷ ms) r = elim (prometheus.register m r) [
    | none ↦ none
    | some s ↦ must_register ms s
  ]

  abbrev with_registry : R → Option R → Option (Registries R)
  with_registry d none = none
  with_registry d (some r) = some (record { default_registerer = d; registry = r })

  -- the start of the package: its variables, and then `init`
  unfoldable pub initialize : Registries R → Option (Registries R)
  initialize rs = elim (must_register declared rs.default_registerer) [
    | none ↦ none
    | some d ↦ with_registry d (must_register registered rs.registry)
  ]

  -- The names are valid, and no two are the same.
  abbrev all_new : List Metric → Bool
  all_new [] = true
  all_new (m ∷ ms) = is_metric_name m.name && not (has_name m.name ms) && all_new ms

  abbrev KnowsNone : R → List Metric → Type 0
  KnowsNone r ms = (n : String) → has_name n ms ≡ true → prometheus.knows r n ≡ false

  -- What registering all the counters leads to.
  abbrev Registered : List Metric → R → R → Type 0
  Registered ms r s = (n : String) → prometheus.knows s n ≡ (has_name n ms || prometheus.knows r n)

  KnowsNone-rest :
      (m : Metric) (ms : List Metric) (r s : R)
      → all_new (m ∷ ms) ≡ true
      → KnowsNone r (m ∷ ms)
      → ((n : String) → prometheus.knows s n ≡ (str_eq m.name n || prometheus.knows r n))
      → KnowsNone s ms
  KnowsNone-rest m ms r s new unknown grown n h =
      ground (arith, new, h, grown n, unknown n, eq_iff m.name n)

  must_register-step :
      (m : Metric) (ms : List Metric) (r s : R)
      → prometheus.register m r ≡ some s
      → must_register (m ∷ ms) r ≡ must_register ms s
  unfolding must_register
  must_register-step m ms r s e = ground (arith, e)

  -- The two registrations of the start.
  both : Option R → Option R → Option (Registries R)
  both none g = none
  both (some d) g = with_registry d g

  initialize-both :
      (rs : Registries R)
      → initialize rs
        ≡ both (must_register declared rs.default_registerer) (must_register registered rs.registry)
  unfolding initialize both
  initialize-both rs = ground arith

  both-some :
      (a b : Option R) (d g : R)
      → a ≡ some d
      → b ≡ some g
      → both a b ≡ some (record { default_registerer = d; registry = g })
  unfolding both
  both-some a b d g e f = ground (arith, e, f)

  must_register-all :
      (ms : List Metric) (r : R)
      → all_new ms ≡ true
      → KnowsNone r ms
      → (s : R) × (must_register ms r ≡ some s) × Registered ms r s
  must_register-all [] r new unknown = (r, unfold must_register in refl, λ n. refl)
  must_register-all (m ∷ ms) r new unknown =
      let first =
        prometheus.register-fresh m r (ground (arith, new))
          (unknown m.name (ground (arith, eq_iff m.name m.name))) in
      let rest =
        must_register-all ms first.0 (ground (arith, new))
          (KnowsNone-rest m ms r first.0 new unknown first.2) in
      (
        rest.0,
        must_register-step m ms r first.0 first.1 ∙ rest.1,
        λ n. ground (arith, first.2 n, rest.2 n),
      )

  declared-new : all_new declared ≡ true
  unfolding is_metric_name
  declared-new = refl

  registered-new : all_new registered ≡ true
  unfolding is_metric_name
  registered-new = refl

  -- The start of the package does not panic if neither of the two registries knows a name of its
  -- counters before; the default one, which the endpoint serves, then knows all that are declared, and
  -- the one that GetMetricsData reads those that `init` registers, and both know no other names than
  -- before.
  pub initialize-Registered :
      (rs : Registries R)
      → KnowsNone rs.default_registerer declared
      → KnowsNone rs.registry registered
      → (out : Registries R) × (initialize rs ≡ some out)
        × Registered declared rs.default_registerer out.default_registerer
        × Registered registered rs.registry out.registry
  initialize-Registered rs h k =
      let d = must_register-all declared rs.default_registerer declared-new h in
      let g = must_register-all registered rs.registry registered-new k in
      (
        record { default_registerer = d.0; registry = g.0 },
        initialize-both rs ∙ both-some _ _ d.0 g.0 d.1 g.1,
        d.2,
        g.2,
      )
