-- ===== src/Base/Contents.antt =====
-- Predicates of all values of a map, and what the operations make of them.
use Prim.Native.String.{String}
use mathlib.Core.Path.{◌≡◌, refl}
use mathlib.Core.Logic.{◌≢◌}
use mathlib.Core.List.{[], ◌∷◌}
use mathlib.Core.Option.{some, none}
use native.Mathlib.Omega.{arith}
use aws_virtual_kubelet.Base.Maps.{Table, lookup, insert, remove, keys}

module _ {ℓ κ} {V : Type ℓ} (IsGood : V → Type κ) where
  abbrev pub Entries : Table V → Type κ
  Entries [] = Unit
  Entries ((name, content) ∷ others) = IsGood content × Entries others

  pub Entries-insert :
      (name : String) (content : V) (m : Table V)
      → IsGood content
      → Entries m
      → Entries (insert name content m)
  unfolding insert
  Entries-insert name content [] good h = (good, tt)
  Entries-insert name content ((j, w) ∷ m) good h =
      ground (arith, Entries-insert name content m good h.1)

  pub Entries-remove : (name : String) (m : Table V) → Entries m → Entries (remove name m)
  unfolding remove
  Entries-remove name [] h = tt
  Entries-remove name ((j, w) ∷ m) h = ground (arith, Entries-remove name m h.1)

  pub Entries-lookup :
      (name : String) (content : V) (m : Table V)
      → Entries m
      → lookup name m ≡ some content
      → IsGood content
  unfolding lookup
  Entries-lookup name content [] h found = absurd (cc)
  Entries-lookup name content ((j, w) ∷ m) h found =
      ground (arith, Entries-lookup name content m h.1)

pub Entries-map {ℓ κ μ} :
    {V : Type ℓ} {P : V → Type κ} {Q : V → Type μ}
    → ((v : V) → P v → Q v)
    → (m : Table V) → Entries P m
    → Entries Q m
Entries-map f [] h = tt
Entries-map f ((key, v) ∷ m) h = (f v h.0, Entries-map f m h.1)

-- Maps with the same keys know the same.
pub lookup-keys {ℓ κ} :
    {V : Type ℓ} {V' : Type κ} (name : String) (m : Table V) (n : Table V')
    → keys m ≡ keys n
    → lookup name n ≢ none
    → lookup name m ≢ none
unfolding lookup
lookup-keys name [] [] same known = absurd (known refl)
lookup-keys name [] (e ∷ n) same known = absurd (cc)
lookup-keys name (e ∷ m) [] same known = absurd (cc)
lookup-keys name ((j, v) ∷ m) ((k, w) ∷ n) same known = ground (arith, lookup-keys name m n)
