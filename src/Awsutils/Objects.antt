-- ===== src/Awsutils/Objects.antt =====
-- What is read of a whole object that json.Marshal and replaceHTMLEscapes have made.
use Prim.Native.Char.{Char, code}
use Prim.Native.String.{char_at}
use mathlib.Core.List.{map-append}
use aws_virtual_kubelet.Base.{
  ◌<◌, ◌≤◌, ◌≡◌, refl, ap, ◌∙◌, String, true, List, [], ◌∷◌, ◌++◌, map, some, length, All, arith,
  ltb, length-append,
}
use aws_virtual_kubelet.Utils.Base64.{bytes}
use aws_virtual_kubelet.Utils.Json.{object}
use aws_virtual_kubelet.Utils.Reading.{read_object}
use aws_virtual_kubelet.Utils.Tokens.{lt, gt, amp, Token, literal, spell}
use aws_virtual_kubelet.Awsutils.UserData.{replace_html_escapes}
use aws_virtual_kubelet.Awsutils.Revealing.{IsGood, reveal, reveal_all, replace_html_escapes-spell}
use aws_virtual_kubelet.Awsutils.Spelling.{
  all_fine, tokens, mark, quote_tokens, field_tokens, object_tokens, AreFine, object-spell,
  token-IsGood, spell-append,
}
use aws_virtual_kubelet.Awsutils.Transport.{bytes-append}
use aws_virtual_kubelet.Awsutils.Delivery.{
  delivered, delivered-mark, read_fields-tokens, field_bytes,
}

delivered-append : (xs ys : List Token) → delivered (xs ++ ys) ≡ delivered xs ++ delivered ys
unfolding delivered reveal_all
delivered-append xs ys =
    ap (λ ts. bytes (spell (map (reveal amp) (map (reveal gt) ts)))) (map-append (reveal lt) xs ys)
    ∙ ap (λ ts. bytes (spell (map (reveal amp) ts)))
        (map-append (reveal gt) (map (reveal lt) xs) (map (reveal lt) ys))
    ∙ ap (λ ts. bytes (spell ts)) (map-append (reveal amp) (map (reveal gt) (map (reveal lt) xs)) _)
    ∙ ap bytes (spell-append (reveal_all xs) (reveal_all ys))
    ∙ bytes-append (spell (reveal_all xs)) (spell (reveal_all ys))

-- What stands behind is not longer than the whole.
behind-le : (xs ys : List Token) → length (delivered ys) ≤ length (delivered (xs ++ ys))
behind-le xs ys =
    omega (arith, ap length (delivered-append xs ys), length-append (delivered xs) (delivered ys))

behind-mark-lt :
    (c : Char) (ts : List Token)
    → ltb (code c) 128 ≡ true
    → length (delivered ts) < length (delivered (literal c ∷ ts))
behind-mark-lt c ts h = omega (arith, ap length (delivered-mark c ts h))

quote-lt :
    (s : String) (rest : List Token)
    → length (delivered rest) < length (delivered (quote_tokens s rest))
unfolding quote_tokens
quote-lt s rest = omega (
  arith,
  behind-mark-lt (char_at "\"" 0) rest refl,
  behind-le (tokens s) (mark "\"" ∷ rest),
  behind-mark-lt (char_at "\"" 0) (tokens s ++ mark "\"" ∷ rest) refl,
)

pair-lt :
    (k v : String) (rest : List Token)
    → length (delivered rest) < length (delivered (quote_tokens k (mark ":" ∷ quote_tokens v rest)))
pair-lt k v rest = omega (
  arith,
  quote-lt v rest,
  behind-mark-lt (char_at ":" 0) (quote_tokens v rest) refl,
  quote-lt k (mark ":" ∷ quote_tokens v rest),
)

length-fields :
    (f : String × String) (fs : List (String × String)) (rest : List Token)
    → length fs < length (delivered (field_tokens (f ∷ fs) rest))
unfolding field_tokens
length-fields (k, v) [] rest = omega (arith, pair-lt k v rest)
length-fields (k, v) (f ∷ fs) rest = omega (
  arith,
  length-fields f fs rest,
  behind-mark-lt (char_at "," 0) (field_tokens (f ∷ fs) rest) refl,
  pair-lt k v (mark "," ∷ field_tokens (f ∷ fs) rest),
)

read_object-tokens :
    (f : String × String) (fs : List (String × String))
    → AreFine (f ∷ fs)
    → read_object (delivered (object_tokens (f ∷ fs))) ≡ some (field_bytes (f ∷ fs))
unfolding object_tokens read_object
read_object-tokens f fs fine =
    let members : List Token = field_tokens (f ∷ fs) (mark "}" ∷ []) in
    ap read_object (delivered-mark (char_at "{" 0) members refl)
    ∙ read_fields-tokens f fs (length (delivered members)) (length-fields f fs (mark "}" ∷ [])) fine

-- Every piece of the text of an object is good.
All-append : (xs ys : List Token) → All IsGood xs → All IsGood ys → All IsGood (xs ++ ys)
All-append [] ys h k = k
All-append (x ∷ xs) ys h k = (h.0, All-append xs ys h.1 k)

tokens-IsGood : (s : String) → all_fine s ≡ true → All IsGood (tokens s)
unfolding tokens
tokens-IsGood String.[] h = tt
tokens-IsGood (String.◌∷◌ c s) h =
    (token-IsGood c (ground (arith, h)), tokens-IsGood s (ground (arith, h)))

quote-IsGood :
    (s : String) (rest : List Token)
    → all_fine s ≡ true
    → All IsGood rest
    → All IsGood (quote_tokens s rest)
unfolding quote_tokens
quote-IsGood s rest h g =
    (refl, All-append (tokens s) (mark "\"" ∷ rest) (tokens-IsGood s h) (refl, g))

field-IsGood :
    (fs : List (String × String)) (rest : List Token)
    → AreFine fs
    → All IsGood rest
    → All IsGood (field_tokens fs rest)
unfolding field_tokens
field-IsGood [] rest h g = g
field-IsGood ((k, v) ∷ []) rest h g =
    quote-IsGood k (mark ":" ∷ quote_tokens v rest) h.0 (refl, quote-IsGood v rest h.1 g)
field-IsGood ((k, v) ∷ f ∷ fs) rest h g =
    quote-IsGood k (mark ":" ∷ quote_tokens v (mark "," ∷ field_tokens (f ∷ fs) rest)) h.0 (
      refl,
      quote-IsGood v (mark "," ∷ field_tokens (f ∷ fs) rest) h.1
          (refl, field-IsGood (f ∷ fs) rest h.2 g),
    )

object-IsGood :
    (f : String × String) (fs : List (String × String))
    → AreFine (f ∷ fs)
    → All IsGood (object_tokens (f ∷ fs))
unfolding object_tokens
object-IsGood f fs fine = (refl, field-IsGood (f ∷ fs) (mark "}" ∷ []) fine (refl, tt))

delivered-object :
    (ts : List Token) → read_object (bytes (spell (reveal_all ts))) ≡ read_object (delivered ts)
unfolding delivered
delivered-object ts = refl

-- An object of fine texts is read back with its fields.
pub read_object-object :
    (f : String × String) (fs : List (String × String))
    → AreFine (f ∷ fs)
    → read_object (bytes (replace_html_escapes (object (f ∷ fs)))) ≡ some (field_bytes (f ∷ fs))
read_object-object f fs fine =
    ap (λ s. read_object (bytes (replace_html_escapes s))) (object-spell (f ∷ fs) fine)
    ∙ ap (λ s. read_object (bytes s))
        (replace_html_escapes-spell (object_tokens (f ∷ fs)) (object-IsGood f fs fine))
    ∙ delivered-object (object_tokens (f ∷ fs))
    ∙ read_object-tokens f fs fine
