-- ===== src/Awsutils/Spelling.antt =====
-- The pieces of which json.Marshal makes up the text of an object.
use Prim.Native.Char.{Char, code}
use Prim.Native.String.{[] as nil, ◌∷◌ as cons, char_at}
use text.Mathlib.TextLemmas.{nil-append, cons-append, append_assoc, append-nil}
use aws_virtual_kubelet.Base.{
  ℕ, ◌≡◌, refl, sym, ap, ◌∙◌, String, str_append, Bool, true, ◌&&◌, ◌||◌, not, List, [], ◌∷◌, ◌++◌,
  leb, ◌==◌, ==_iff, arith, if◌then◌else◌,
}
use aws_virtual_kubelet.Utils.Json.{escape_char, escape, quote, fields, object, unicode_escape}
use aws_virtual_kubelet.Utils.Tokens.{
  lt, gt, amp, Token, literal, backslashed, html, write, spell, is_plain,
}
use aws_virtual_kubelet.Awsutils.Revealing.{IsGood}

-- No backslash, no control character but tabs and line ends, and not U+2028 or U+2029.
abbrev pub is_fine : Char → Bool
is_fine c =
    is_plain c
    && (leb 32 (code c) || code c == 10 || code c == 13 || code c == 9)
    && not (code c == 0x2028)
    && not (code c == 0x2029)

abbrev pub all_fine : String → Bool
all_fine String.[] = true
all_fine (String.◌∷◌ c s) = is_fine c && all_fine s

unfoldable pub token : Char → Token
token c =
    let n = code c in
    if n == b'"'
    then backslashed c
    else if n == 10
    then backslashed (char_at "n" 0)
    else if n == 13
    then backslashed (char_at "r" 0)
    else if n == 9
    then backslashed (char_at "t" 0)
    else if n == b'<'
    then html lt
    else if n == b'>'
    then html gt
    else if n == b'&'
    then html amp
    else literal c

unfoldable pub tokens : String → List Token
tokens String.[] = []
tokens (String.◌∷◌ c s) = token c ∷ tokens s

-- A code point in the hexadecimal form of an escape.
unicode_escape-lt : (n : ℕ) → (n == b'<') ≡ true → unicode_escape n ≡ "\\u003c"
unicode_escape-lt n h = ap unicode_escape ((==_iff n b'<').0 h)

unicode_escape-gt : (n : ℕ) → (n == b'>') ≡ true → unicode_escape n ≡ "\\u003e"
unicode_escape-gt n h = ap unicode_escape ((==_iff n b'>').0 h)

unicode_escape-amp : (n : ℕ) → (n == b'&') ≡ true → unicode_escape n ≡ "\\u0026"
unicode_escape-amp n h = ap unicode_escape ((==_iff n b'&').0 h)

backslash-append : (c : Char) → str_append "\\" (cons c nil) ≡ cons (char_at "\\" 0) (cons c nil)
backslash-append c =
    cons-append (char_at "\\" 0) nil (cons c nil) ∙ ap (cons (char_at "\\" 0)) (nil-append _)

write-token : (c : Char) → is_fine c ≡ true → write (token c) ≡ escape_char c
unfolding write token escape_char
write-token c h = ground (
  arith,
  h,
  backslash-append c,
  unicode_escape-lt (code c),
  unicode_escape-gt (code c),
  unicode_escape-amp (code c),
)

pub token-IsGood : (c : Char) → is_fine c ≡ true → IsGood (token c)
unfolding token
token-IsGood c h = ground (arith, h)

-- The text of one character is the text of its piece, and so on for the parts of an object.
tokens-spell : (s : String) → all_fine s ≡ true → escape s ≡ spell (tokens s)
unfolding escape spell tokens
tokens-spell String.[] h = refl
tokens-spell (String.◌∷◌ c s) h =
    ap (λ t. str_append t (escape s)) (sym (write-token c (ground (arith, h))))
    ∙ ap (str_append (write (token c))) (tokens-spell s (ground (arith, h)))

pub spell-append : (xs ys : List Token) → spell (xs ++ ys) ≡ str_append (spell xs) (spell ys)
unfolding spell
spell-append [] ys = sym (nil-append (spell ys))
spell-append (x ∷ xs) ys =
    ap (str_append (write x)) (spell-append xs ys)
    ∙ sym (append_assoc (write x) (spell xs) (spell ys))

abbrev pub mark : String → Token
mark s = literal (char_at s 0)

unfoldable pub quote_tokens : String → List Token → List Token
quote_tokens s rest = mark "\"" ∷ (tokens s ++ mark "\"" ∷ rest)

unfoldable pub field_tokens : List (String × String) → List Token → List Token
field_tokens [] rest = rest
field_tokens ((k, v) ∷ []) rest = quote_tokens k (mark ":" ∷ quote_tokens v rest)
field_tokens ((k, v) ∷ fs) rest =
    quote_tokens k (mark ":" ∷ quote_tokens v (mark "," ∷ field_tokens fs rest))

unfoldable pub object_tokens : List (String × String) → List Token
object_tokens fs = mark "{" ∷ field_tokens fs (mark "}" ∷ [])

abbrev pub AreFine : List (String × String) → Type 0
AreFine [] = Unit
AreFine ((k, v) ∷ fs) = (all_fine k ≡ true) × (all_fine v ≡ true) × AreFine fs

mark-spell :
    (c : Char) (rest : List Token) → str_append (cons c nil) (spell rest) ≡ spell (literal c ∷ rest)
unfolding spell write
mark-spell c rest = refl

quote-spell :
    (s : String) (rest : List Token)
    → all_fine s ≡ true
    → str_append (quote s) (spell rest) ≡ spell (quote_tokens s rest)
unfolding quote quote_tokens
quote-spell s rest h =
    append_assoc "\"" (str_append (escape s) "\"") (spell rest)
    ∙ ap (str_append "\"") (
        append_assoc (escape s) "\"" (spell rest)
        ∙ ap (λ t. str_append t (str_append "\"" (spell rest))) (tokens-spell s h)
        ∙ ap (str_append (spell (tokens s))) (mark-spell (char_at "\"" 0) rest)
        ∙ sym (spell-append (tokens s) (mark "\"" ∷ rest)))
    ∙ mark-spell (char_at "\"" 0) (tokens s ++ mark "\"" ∷ rest)

-- A field, and what follows it.
pair-spell :
    (k v : String) (rest : List Token)
    → all_fine k ≡ true
    → all_fine v ≡ true
    → str_append (str_append (quote k) (str_append ":" (quote v))) (spell rest)
      ≡ spell (quote_tokens k (mark ":" ∷ quote_tokens v rest))
pair-spell k v rest hk hv =
    append_assoc (quote k) (str_append ":" (quote v)) (spell rest)
    ∙ ap (str_append (quote k)) (
        append_assoc ":" (quote v) (spell rest)
        ∙ ap (str_append ":") (quote-spell v rest hv)
        ∙ mark-spell (char_at ":" 0) (quote_tokens v rest))
    ∙ quote-spell k (mark ":" ∷ quote_tokens v rest) hk

-- The fields before the last one, in the form of a field and what follows it.
regroup :
    (a b c : String)
    → str_append a (str_append ":" (str_append b c))
      ≡ str_append (str_append a (str_append ":" b)) c
regroup a b c = sym (append_assoc a (str_append ":" b) c ∙ ap (str_append a) (append_assoc ":" b c))

fields-spell :
    (fs : List (String × String)) (rest : List Token)
    → AreFine fs
    → str_append (fields fs) (spell rest) ≡ spell (field_tokens fs rest)
unfolding fields field_tokens
fields-spell [] rest h = nil-append (spell rest)
fields-spell ((k, v) ∷ []) rest h = pair-spell k v rest h.0 h.1
fields-spell ((k, v) ∷ f ∷ fs) rest h =
    ap (λ t. str_append t (spell rest))
      (regroup (quote k) (quote v) (str_append "," (fields (f ∷ fs))))
    ∙ append_assoc (str_append (quote k) (str_append ":" (quote v)))
        (str_append "," (fields (f ∷ fs))) (spell rest)
    ∙ ap (str_append (str_append (quote k) (str_append ":" (quote v)))) (
        append_assoc "," (fields (f ∷ fs)) (spell rest)
        ∙ ap (str_append ",") (fields-spell (f ∷ fs) rest h.2)
        ∙ mark-spell (char_at "," 0) (field_tokens (f ∷ fs) rest))
    ∙ pair-spell k v (mark "," ∷ field_tokens (f ∷ fs) rest) h.0 h.1

pub object-spell : (fs : List (String × String)) → AreFine fs → object fs ≡ spell (object_tokens fs)
unfolding object object_tokens spell
object-spell fs h =
    ap (str_append "{") (
      ap (str_append (fields fs)) (sym (append-nil "}") ∙ (mark-spell (char_at "}" 0) []))
      ∙ fields-spell fs (mark "}" ∷ []) h)
    ∙ mark-spell (char_at "{" 0) (field_tokens fs (mark "}" ∷ []))
