-- ===== src/Base/Maps.antt =====
-- Go's `map[string]V` as an association list with one entry to a key: reading, writing, `delete`,
-- `len`, and the laws of these.
use Prim.Native.Nat.{ℕ, zero, suc, ◌≤◌, ◌<◌}
use Prim.Native.String.{String}
use mathlib.Core.Path.{◌≡◌, refl}
use mathlib.Core.Logic.{◌≢◌, inl, inr}
use mathlib.Core.List.{List, [], ◌∷◌, map}
use mathlib.Core.Option.{Option, none, some}
use native.Mathlib.Omega.{arith}
use text.Mathlib.Text.{◌==◌}
use text.Mathlib.TextEquality.{eq_iff}
use aws_virtual_kubelet.Base.Tests.{if◌then◌else◌, Bool-cases}
use aws_virtual_kubelet.Base.Lists.{length, get_elem?}

abbrev pub Table {ℓ} : Type ℓ → Type ℓ
Table V = List (String × V)

module _ {ℓ} {V : Type ℓ} where
  unfoldable pub lookup : String → Table V → Option V
  lookup key [] = none
  lookup key ((other, value) ∷ entries) = if other == key then some value else lookup key entries

  -- `m[key] = value`
  unfoldable pub insert : String → V → Table V → Table V
  insert key value [] = (key, value) ∷ []
  insert key value ((other, held) ∷ entries) =
      if other == key then (key, value) ∷ entries else (other, held) ∷ insert key value entries

  -- `delete(m, key)`, which does nothing on a missing key
  unfoldable pub remove : String → Table V → Table V
  remove key [] = []
  remove key ((other, held) ∷ entries) =
      if other == key then entries else (other, held) ∷ remove key entries

  abbrev pub keys : Table V → List String
  keys = map λ e. e.0

  abbrev pub values : Table V → List V
  values = map λ e. e.1

  -- The key occurs in no entry.
  abbrev pub Fresh : String → Table V → Type 0
  Fresh key [] = Unit
  Fresh key ((other, value) ∷ entries) = (other ≢ key) × Fresh key entries

  -- No key has two entries.
  abbrev pub IsTable : Table V → Type 0
  IsTable [] = Unit
  IsTable ((other, value) ∷ entries) = Fresh other entries × IsTable entries

  pub lookup-insert :
      (key other : String) (value : V) (entries : Table V)
      → lookup other (insert key value entries)
        ≡ (if key == other then some value else lookup other entries)
  unfolding lookup insert
  lookup-insert key other value [] = refl
  lookup-insert key other value ((i, held) ∷ entries) =
      ground (
        arith,
        eq_iff key other,
        eq_iff i key,
        eq_iff i other,
        lookup-insert key other value entries,
      )

  pub lookup-Fresh :
      (key : String) (entries : Table V) → Fresh key entries → lookup key entries ≡ none
  unfolding lookup
  lookup-Fresh key [] f = refl
  lookup-Fresh key ((other, value) ∷ entries) f =
      ground (arith, eq_iff other key, lookup-Fresh key entries f.1)

  pub lookup-remove :
      (key other : String) (entries : Table V)
      → IsTable entries
      → lookup other (remove key entries) ≡ (if key == other then none else lookup other entries)
  unfolding lookup remove
  lookup-remove key other [] t = ground arith
  lookup-remove key other ((i, held) ∷ entries) t = ground (
    arith,
    eq_iff key other,
    eq_iff i key,
    eq_iff i other,
    lookup-Fresh i entries t.0,
    lookup-remove key other entries t.1,
  )

  pub Fresh-insert :
      (key other : String) (value : V) (entries : Table V)
      → key ≢ other
      → Fresh other entries
      → Fresh other (insert key value entries)
  unfolding insert
  Fresh-insert key other value [] h f = (h, tt)
  Fresh-insert key other value ((i, held) ∷ entries) h f =
      ground (arith, eq_iff i key, Fresh-insert key other value entries h f.1)

  pub insert-IsTable :
      (key : String) (value : V) (entries : Table V)
      → IsTable entries
      → IsTable (insert key value entries)
  unfolding insert
  insert-IsTable key value [] t = (tt, tt)
  insert-IsTable key value ((i, held) ∷ entries) t =
      ground (
        arith,
        eq_iff i key,
        insert-IsTable key value entries t.1,
        Fresh-insert key i value entries,
      )

  pub Fresh-remove :
      (key other : String) (entries : Table V)
      → Fresh other entries
      → Fresh other (remove key entries)
  unfolding remove
  Fresh-remove key other [] f = tt
  Fresh-remove key other ((i, held) ∷ entries) f =
      ground (arith, Fresh-remove key other entries f.1)

  pub remove-IsTable :
      (key : String) (entries : Table V) → IsTable entries → IsTable (remove key entries)
  unfolding remove
  remove-IsTable key [] t = tt
  remove-IsTable key ((i, held) ∷ entries) t =
      ground (arith, remove-IsTable key entries t.1, Fresh-remove key i entries t.0)

  pub length-remove :
      (key : String) (value : V) (entries : Table V)
      → lookup key entries ≡ some value
      → suc (length (remove key entries)) ≡ length entries
  unfolding lookup remove
  length-remove key value [] e = absurd (cc)
  length-remove key value ((i, held) ∷ entries) e = ground (arith, length-remove key value entries)

  -- Every place of a map has a key, and that key a value.
  pub get_elem?-keys :
      (entries : Table V) (i : ℕ)
      → i < length entries
      → (key : String) × (value : V) × (get_elem? (keys entries) i ≡ some key)
        × (lookup key entries ≡ some value)
  unfolding lookup
  get_elem?-keys [] i h = elim h [ ]
  get_elem?-keys ((other, held) ∷ entries) zero h =
      (other, held, refl, ground (arith, eq_iff other other))
  get_elem?-keys ((other, held) ∷ entries) (suc i) h =
      let (key, value, at, found) = get_elem?-keys entries i (omega arith) in
      elim (Bool-cases (other == key)) [
        | inl same ↦ (key, held, at, rw same)
        | inr differs ↦ (key, value, at, rw differs found)
      ]

  pub length-insert_bounds :
      (key : String) (value : V) (entries : Table V)
      → (length entries ≤ length (insert key value entries))
        × (length (insert key value entries) ≤ suc (length entries))
  unfolding insert
  length-insert_bounds key value [] = omega arith
  length-insert_bounds key value ((i, held) ∷ entries) =
      ground (arith, length-insert_bounds key value entries)
