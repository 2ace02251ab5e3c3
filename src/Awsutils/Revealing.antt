-- ===== src/Awsutils/Revealing.antt =====
-- replaceHTMLEscapes on the pieces of a text: it puts `<`, `>` and `&` back.
use Prim.Native.Char.{Char, code}
use Prim.Native.String.{[] as nil, ◌∷◌ as cons, char_at}
use text.Mathlib.Text.{starts_with}
use text.Mathlib.TextLemmas.{nil-append, cons-append}
use aws_virtual_kubelet.Base.{
  ℕ, ◌≡◌, refl, sym, ap, ◌∙◌, String, str_append, Bool, true, false, ◌&&◌, not, List, [], ◌∷◌, map,
  some, All, ◌==◌, arith,
}
use aws_virtual_kubelet.Utils.Text.{replace_from, replace_all}
use aws_virtual_kubelet.Awsutils.UserData.{replace_html_escapes}
use aws_virtual_kubelet.Utils.Tokens.{
  Html, lt, gt, amp, Token, literal, backslashed, html, write, spell, code_at, code_at-append,
  starts_with-other, is_plain, all_plain, step-miss, replace-hit,
}

-- A literal is no backslash, and what a backslash stands before is no `u` and no backslash.
abbrev pub is_good : Token → Bool
is_good (literal c) = is_plain c
is_good (backslashed c) = is_plain c && not (code c == b'u')
is_good (html h) = true

abbrev pub IsGood : Token → Type 0
IsGood t = is_good t ≡ true

abbrev pub escape_of : Html → String
escape_of lt = "\\u003c"
escape_of gt = "\\u003e"
escape_of amp = "\\u0026"

abbrev pub symbol_of : Html → String
symbol_of lt = "<"
symbol_of gt = ">"
symbol_of amp = "&"

abbrev character : String → Char
character s = char_at s 0

-- What becomes of a piece when one kind of escape is replaced.
unfoldable pub reveal : Html → Token → Token
reveal lt (html lt) = literal (character "<")
reveal gt (html gt) = literal (character ">")
reveal amp (html amp) = literal (character "&")
reveal k t = t

module _ (old new : String) (first : code_at 0 old ≡ some 92) where
  pass-plain :
      (c : Char) (s : String)
      → is_plain c ≡ true
      → replace_from old new 0 (cons c s) ≡ cons c (replace_from old new 0 s)
  pass-plain c s plain =
      step-miss old new c s
        (starts_with-other 0 (cons c s) old 92 (code c) first refl (ground arith))

  pass :
      (u s : String)
      → all_plain u ≡ true
      → replace_from old new 0 (str_append u s) ≡ str_append u (replace_from old new 0 s)
  pass String.[] s h = ap (replace_from old new 0) (nil-append s) ∙ sym (nil-append _)
  pass (String.◌∷◌ c u) s h =
      ap (replace_from old new 0) (cons-append c u s)
      ∙ pass-plain c (str_append u s) (ground arith)
      ∙ ap (cons c) (pass u s (ground arith))
      ∙ sym (cons-append c u _)

  -- A backslash that no occurrence starts with.
  pass-backslash :
      (n k m : ℕ) (c : Char) (u s : String)
      → code_at n old ≡ some k
      → code_at n (cons c u) ≡ some m
      → (k == m) ≡ false
      → all_plain u ≡ true
      → replace_from old new 0 (str_append (cons c u) s)
        ≡ str_append (cons c u) (replace_from old new 0 s)
  pass-backslash n k m c u s h e other plain =
      ap (replace_from old new 0) (cons-append c u s)
      ∙ step-miss old new c (str_append u s) (
          ap (λ t. starts_with t old) (sym (cons-append c u s))
          ∙ starts_with-other n (str_append (cons c u) s) old k m h
              (code_at-append n (cons c u) s m e) other)
      ∙ ap (cons c) (pass u s plain)
      ∙ sym (cons-append c u _)

backslash : Char
backslash = char_at "\\" 0

-- One kind of escape, in front of any text.
replace-write :
    (k : Html) (t : Token) (s : String)
    → IsGood t
    → replace_from (escape_of k) (symbol_of k) 0 (str_append (write t) s)
      ≡ str_append (write (reveal k t)) (replace_from (escape_of k) (symbol_of k) 0 s)
unfolding write reveal
replace-write lt (literal c) s g = pass "\\u003c" "<" refl (cons c nil) s (ground (arith, g))
replace-write gt (literal c) s g = pass "\\u003e" ">" refl (cons c nil) s (ground (arith, g))
replace-write amp (literal c) s g = pass "\\u0026" "&" refl (cons c nil) s (ground (arith, g))
replace-write lt (backslashed c) s g =
    pass-backslash "\\u003c" "<" refl 1 b'u' (code c) (char_at "\\" 0) (cons c nil) s refl refl
      (ground (arith, g)) (ground (arith, g))
replace-write gt (backslashed c) s g =
    pass-backslash "\\u003e" ">" refl 1 b'u' (code c) (char_at "\\" 0) (cons c nil) s refl refl
      (ground (arith, g)) (ground (arith, g))
replace-write amp (backslashed c) s g =
    pass-backslash "\\u0026" "&" refl 1 b'u' (code c) (char_at "\\" 0) (cons c nil) s refl refl
      (ground (arith, g)) (ground (arith, g))
replace-write lt (html lt) s g = replace-hit "\\u003c" "<" (char_at "\\" 0) "u003c" s refl
replace-write gt (html gt) s g = replace-hit "\\u003e" ">" (char_at "\\" 0) "u003e" s refl
replace-write amp (html amp) s g = replace-hit "\\u0026" "&" (char_at "\\" 0) "u0026" s refl
replace-write lt (html gt) s g =
    pass-backslash "\\u003c" "<" refl 5 b'c' b'e' (char_at "\\" 0) "u003e" s refl refl refl refl
replace-write lt (html amp) s g =
    pass-backslash "\\u003c" "<" refl 5 b'c' b'6' (char_at "\\" 0) "u0026" s refl refl refl refl
replace-write gt (html lt) s g =
    pass-backslash "\\u003e" ">" refl 5 b'e' b'c' (char_at "\\" 0) "u003c" s refl refl refl refl
replace-write gt (html amp) s g =
    pass-backslash "\\u003e" ">" refl 5 b'e' b'6' (char_at "\\" 0) "u0026" s refl refl refl refl
replace-write amp (html lt) s g =
    pass-backslash "\\u0026" "&" refl 5 b'6' b'c' (char_at "\\" 0) "u003c" s refl refl refl refl
replace-write amp (html gt) s g =
    pass-backslash "\\u0026" "&" refl 5 b'6' b'e' (char_at "\\" 0) "u003e" s refl refl refl refl

reveal-IsGood : (k : Html) (t : Token) → IsGood t → IsGood (reveal k t)
unfolding reveal
reveal-IsGood lt (literal c) g = g
reveal-IsGood lt (backslashed c) g = g
reveal-IsGood gt (literal c) g = g
reveal-IsGood gt (backslashed c) g = g
reveal-IsGood amp (literal c) g = g
reveal-IsGood amp (backslashed c) g = g
reveal-IsGood lt (html lt) g = refl
reveal-IsGood lt (html gt) g = refl
reveal-IsGood lt (html amp) g = refl
reveal-IsGood gt (html lt) g = refl
reveal-IsGood gt (html gt) g = refl
reveal-IsGood gt (html amp) g = refl
reveal-IsGood amp (html lt) g = refl
reveal-IsGood amp (html gt) g = refl
reveal-IsGood amp (html amp) g = refl

map-reveal-IsGood : (k : Html) (ts : List Token) → All IsGood ts → All IsGood (map (reveal k) ts)
map-reveal-IsGood k [] g = tt
map-reveal-IsGood k (t ∷ ts) g = (reveal-IsGood k t g.0, map-reveal-IsGood k ts g.1)

replace-spell :
    (k : Html) (ts : List Token)
    → All IsGood ts
    → replace_all (spell ts) (escape_of k) (symbol_of k) ≡ spell (map (reveal k) ts)
unfolding replace_all spell
replace-spell lt [] g = unfold replace_from in refl
replace-spell gt [] g = unfold replace_from in refl
replace-spell amp [] g = unfold replace_from in refl
replace-spell k (t ∷ ts) g =
    replace-write k t (spell ts) g.0 ∙ ap (str_append (write (reveal k t))) (replace-spell k ts g.1)

-- All three kinds.
unfoldable pub reveal_all : List Token → List Token
reveal_all ts = map (reveal amp) (map (reveal gt) (map (reveal lt) ts))

pub replace_html_escapes-spell :
    (ts : List Token) → All IsGood ts → replace_html_escapes (spell ts) ≡ spell (reveal_all ts)
unfolding replace_html_escapes reveal_all
replace_html_escapes-spell ts g =
    ap (λ s. replace_all (replace_all s "\\u003e" ">") "\\u0026" "&") (replace-spell lt ts g)
    ∙ ap (λ s. replace_all s "\\u0026" "&")
        (replace-spell gt (map (reveal lt) ts) (map-reveal-IsGood lt ts g))
    ∙ replace-spell amp (map (reveal gt) (map (reveal lt) ts))
        (map-reveal-IsGood gt (map (reveal lt) ts) (map-reveal-IsGood lt ts g))
