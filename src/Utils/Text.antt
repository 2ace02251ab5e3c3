-- ===== src/Utils/Text.antt =====
-- The functions of Go's package `strings` that the program calls: Split, Trim by a space, Replace of
-- every occurrence, and Contains.
use Prim.Native.Char.{Char, code}
use Prim.Native.Nat.{◌/◌}
use Prim.Native.String.{count, char_at, [] as nil, ◌∷◌ as cons}
use text.Mathlib.Text.{starts_with, find?}
use aws_virtual_kubelet.Base.{
  ℕ, zero, suc, ◌-◌, ◌%◌, String, str_append, Bool, true, false, ◌&&◌, List, [], ◌∷◌, none, some,
  ◌==◌, ltb, if◌then◌else◌,
}

abbrev pub is_empty : String → Bool
is_empty String.[] = true
is_empty (String.◌∷◌ _ _) = false

abbrev pub contains : String → String → Bool
contains s part = elim (find? s part) [ none ↦ false | some _ ↦ true ]

abbrev pub is_space : Char → Bool
is_space c = code c == 32

-- strings.TrimLeft and strings.TrimRight, by spaces.
pub trim_left : String → String
trim_left String.[] = nil
trim_left (String.◌∷◌ c s) = elim (is_space c) [ true ↦ trim_left s | false ↦ cons c s ]

pub trim_right : String → String
trim_right String.[] = nil
trim_right (String.◌∷◌ c s) =
    let rest = trim_right s in if is_space c && is_empty rest then nil else cons c rest

unfoldable pub trim : String → String
unfolding trim_left trim_right
trim s = trim_right (trim_left s)

-- `skip` characters of an occurrence are still to be passed over.
unfoldable pub replace_from : String → String → ℕ → String → String
replace_from old new skip String.[] = nil
replace_from old new (suc skip) (String.◌∷◌ c s) = replace_from old new skip s
replace_from old new zero (String.◌∷◌ c s) =
    let hit = starts_with (cons c s) old in
    str_append (if hit then new else cons c nil)
      (replace_from old new (if hit then count old - 1 else 0) s)

-- strings.Replace(s, old, new, -1), for a text `old` that is not empty.
unfoldable pub replace_all : String → String → String → String
unfolding replace_from
replace_all s old new = replace_from old new 0 s

-- `c` in front of the first piece.
abbrev pub onto_first : Char → List String → List String
onto_first c [] = cons c nil ∷ []
onto_first c (p ∷ ps) = cons c p ∷ ps

pub split_from : String → ℕ → String → List String
split_from sep skip String.[] = nil ∷ []
split_from sep (suc skip) (String.◌∷◌ c s) = split_from sep skip s
split_from sep zero (String.◌∷◌ c s) =
    let hit = starts_with (cons c s) sep in
    let rest = split_from sep (if hit then count sep - 1 else 0) s in
    if hit then nil ∷ rest else onto_first c rest

-- strings.Split(s, sep), for a separator that is not empty.
unfoldable pub split : String → String → List String
unfolding split_from
split s sep = split_from sep 0 s

-- strconv.Itoa of a number that is not negative; `fuel` bounds the digits.
pub itoa_from : ℕ → ℕ → String → String
itoa_from zero n acc = acc
itoa_from (suc fuel) n acc =
    let acc' = cons (char_at "0123456789" (n % 10)) acc in
    let rest = itoa_from fuel (n / 10) acc' in if ltb n 10 then acc' else rest

unfoldable pub itoa : ℕ → String
unfolding itoa_from
itoa n = itoa_from (suc n) n nil

-- strings.ToLower, of a text in which no other letters than those of ASCII are capitals.
unfoldable pub to_lower : String → String
to_lower String.[] = nil
to_lower (String.◌∷◌ c s) =
    let n = code c in
    let lower = if ltb 64 n && ltb n 91 then char_at "abcdefghijklmnopqrstuvwxyz" (n - 65) else c in
    cons lower (to_lower s)
