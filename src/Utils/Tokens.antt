-- ===== src/Utils/Tokens.antt =====
-- A text as the pieces that json.Marshal writes, and what strings.Replace does to the pieces.
use Prim.Native.Char.{Char, code}
use Prim.Native.String.{[] as nil, ◌∷◌ as cons, char_at, count}
use text.Mathlib.Text.{starts_with}
use text.Mathlib.TextEquality.{starts_with_iff}
use text.Mathlib.TextLemmas.{nil-append, cons-append, length-cons}
use text.Mathlib.TextPositions.{starts_with-append}
use aws_virtual_kubelet.Base.{
  ℕ, zero, suc, ◌-◌, ◌≡◌, refl, sym, ap, ◌∙◌, String, str_append, Bool, true, false, ◌&&◌, not,
  List, [], ◌∷◌, Option, none, some, ◌==◌, Bool-cases, inl, inr, arith, if◌then◌else◌,
}
use aws_virtual_kubelet.Utils.Text.{replace_from}

-- The characters that are escaped for HTML.
pub data Html : Type 0 where
  lt gt amp : Html

-- A character as it stands, a backslash before another one, and an escape for HTML.
pub data Token : Type 0 where
  literal backslashed : Char → Token
  html : Html → Token

unfoldable pub write : Token → String
write (literal c) = cons c nil
write (backslashed c) = cons (char_at "\\" 0) (cons c nil)
write (html lt) = "\\u003c"
write (html gt) = "\\u003e"
write (html amp) = "\\u0026"

unfoldable pub spell : List Token → String
spell [] = nil
spell (t ∷ ts) = str_append (write t) (spell ts)

abbrev pub code_at : ℕ → String → Option ℕ
code_at n String.[] = none
code_at zero (String.◌∷◌ c s) = some (code c)
code_at (suc n) (String.◌∷◌ c s) = code_at n s

pub code_at-append :
    (n : ℕ) (t r : String) (k : ℕ) → code_at n t ≡ some k → code_at n (str_append t r) ≡ some k
code_at-append n String.[] r k h = absurd (cc)
code_at-append zero (String.◌∷◌ c s) r k h = ap (code_at 0) (cons-append c s r) ∙ h
code_at-append (suc n) (String.◌∷◌ c s) r k h =
    ap (code_at (suc n)) (cons-append c s r) ∙ code_at-append n s r k h

-- A text that has another character somewhere does not start with `t`.
pub starts_with-other :
    (n : ℕ) (s t : String) (k m : ℕ)
    → code_at n t ≡ some k
    → code_at n s ≡ some m
    → (k == m) ≡ false
    → starts_with s t ≡ false
starts_with-other n s t k m h e other = elim (Bool-cases (starts_with s t)) [
  | inl hit ↦
      let prefix = (starts_with_iff s t).0 hit in
      absurd (ground (arith, code_at-append n t prefix.0 k h, ap (code_at n) prefix.1))
  | inr miss ↦ miss
]

-- No backslash.
abbrev pub is_plain : Char → Bool
is_plain c = not (code c == 92)

abbrev pub all_plain : String → Bool
all_plain String.[] = true
all_plain (String.◌∷◌ c s) = is_plain c && all_plain s

module _ (old new : String) where
  pub step-miss :
      (c : Char) (s : String)
      → starts_with (cons c s) old ≡ false
      → replace_from old new 0 (cons c s) ≡ cons c (replace_from old new 0 s)
  unfolding replace_from
  step-miss c s miss = go (starts_with (cons c s) old) miss
    where
      go :
          (b : Bool)
          → b ≡ false
          → str_append
              (if b then new else cons c nil)
              (replace_from old new (if b then count old - 1 else 0) s)
            ≡ cons c (replace_from old new 0 s)
      go true h = absurd (cc)
      go false h = cons-append c nil _ ∙ ap (cons c) (nil-append _)

  step-hit :
      (c : Char) (s : String)
      → starts_with (cons c s) old ≡ true
      → replace_from old new 0 (cons c s) ≡ str_append new (replace_from old new (count old - 1) s)
  unfolding replace_from
  step-hit c s hit = go (starts_with (cons c s) old) hit
    where
      go :
          (b : Bool)
          → b ≡ true
          → str_append
              (if b then new else cons c nil)
              (replace_from old new (if b then count old - 1 else 0) s)
            ≡ str_append new (replace_from old new (count old - 1) s)
      go true h = refl
      go false h = absurd (cc)

  skip-one :
      (n : ℕ) (c : Char) (s : String)
      → replace_from old new (suc n) (cons c s) ≡ replace_from old new n s
  unfolding replace_from
  skip-one n c s = refl

  -- The characters of the occurrence that are passed over.
  skip-append :
      (u s : String) → replace_from old new (count u) (str_append u s) ≡ replace_from old new 0 s
  skip-append String.[] s = ap (replace_from old new 0) (nil-append s)
  skip-append (String.◌∷◌ c u) s =
      ap (λ n. replace_from old new n (str_append (cons c u) s)) (length-cons c u)
      ∙ ap (replace_from old new (suc (count u))) (cons-append c u s)
      ∙ skip-one (count u) c (str_append u s)
      ∙ skip-append u s

  pub replace-hit :
      (c : Char) (u s : String)
      → old ≡ cons c u
      → replace_from old new 0 (str_append old s) ≡ str_append new (replace_from old new 0 s)
  replace-hit c u s e =
      ap (λ o. replace_from old new 0 (str_append o s)) e
      ∙ ap (replace_from old new 0) (cons-append c u s)
      ∙ step-hit c (str_append u s) (
          ap (λ t. starts_with t old) (sym (cons-append c u s))
          ∙ ap (λ o. starts_with (str_append o s) old) (sym e)
          ∙ starts_with-append old s)
      ∙ ap (λ o. str_append new (replace_from old new (count o - 1) (str_append u s))) e
      ∙ ap (λ n. str_append new (replace_from old new (n - 1) (str_append u s))) (length-cons c u)
      ∙ ap (str_append new)
          (ap (λ n. replace_from old new n (str_append u s)) (omega arith) ∙ skip-append u s)
