-- ===== src/Awsutils/Delivery.antt =====
-- What is read of the texts and fields of an object, once the escapes for HTML are undone.
use Prim.Native.Char.{Char, code}
use Prim.Native.String.{char_at}
use aws_virtual_kubelet.Base.{
  ℕ, zero, suc, ◌<◌, ◌≡◌, refl, ap, ◌∙◌, String, true, List, [], ◌∷◌, ◌++◌, append-nil, none, some,
  length, arith, ltb,
}
use aws_virtual_kubelet.Utils.Base64.{utf8, bytes}
use aws_virtual_kubelet.Utils.Reading.{
  plain, Read, prepend, read_text, read_fields, Fields, next, add_field, read_end,
}
use aws_virtual_kubelet.Utils.Tokens.{Token, literal, write, spell}
use aws_virtual_kubelet.Awsutils.Revealing.{reveal, reveal_all}
use aws_virtual_kubelet.Awsutils.Spelling.{
  all_fine, token, tokens, mark, quote_tokens, field_tokens, AreFine,
}
use aws_virtual_kubelet.Awsutils.Transport.{
  prepend-prepend, bytes-append, bytes-literal, read_text-write, revealed, revealed-is_readable,
  revealed-meaning,
}

-- The bytes of some pieces, once the escapes for HTML are undone.
unfoldable pub delivered : List Token → List ℕ
delivered ts = bytes (spell (reveal_all ts))

pub delivered-token :
    (c : Char) (ts : List Token)
    → delivered (token c ∷ ts) ≡ bytes (write (revealed c)) ++ delivered ts
unfolding delivered reveal_all spell revealed
delivered-token c ts = bytes-append (write (revealed c)) (spell (reveal_all ts))

delivered-literal :
    (c : Char) (ts : List Token) → delivered (literal c ∷ ts) ≡ utf8 (code c) ++ delivered ts
unfolding delivered reveal_all spell reveal
delivered-literal c ts =
    bytes-append (write (literal c)) (spell (reveal_all ts))
    ∙ ap (λ bs. bs ++ bytes (spell (reveal_all ts))) (bytes-literal c)

-- A text is read as its bytes, up to what follows it.
read_text-tokens :
    (s : String) (rest : List Token)
    → all_fine s ≡ true
    → read_text plain (delivered (tokens s ++ rest))
      ≡ prepend (bytes s) (read_text plain (delivered rest))
unfolding tokens bytes
read_text-tokens String.[] rest h = go (read_text plain (delivered rest))
  where
    go : (r : Read) → r ≡ prepend [] r
    go none = refl
    go (some (text, more)) = refl
read_text-tokens (String.◌∷◌ c s) rest h =
    ap (read_text plain) (delivered-token c (tokens s ++ rest))
    ∙ read_text-write (revealed c) (delivered (tokens s ++ rest))
        (revealed-is_readable c (ground (arith, h)))
    ∙ ap (λ m. prepend m (read_text plain (delivered (tokens s ++ rest))))
        (revealed-meaning c (ground (arith, h)))
    ∙ ap (prepend (utf8 (code c))) (read_text-tokens s rest (ground (arith, h)))
    ∙ prepend-prepend (utf8 (code c)) (bytes s) (read_text plain (delivered rest))

pub delivered-mark :
    (c : Char) (ts : List Token)
    → ltb (code c) 128 ≡ true
    → delivered (literal c ∷ ts) ≡ code c ∷ delivered ts
unfolding utf8
delivered-mark c ts h = delivered-literal c ts ∙ (ground (arith, h))

read_text-end : (rest : List ℕ) → read_text plain (b'"' ∷ rest) ≡ some ([], rest)
unfolding read_text next
read_text-end rest = refl

-- A quoted text.
read_text-quote :
    (s : String) (rest : List Token)
    → all_fine s ≡ true
    → read_text plain (delivered (tokens s ++ mark "\"" ∷ rest)) ≡ some (bytes s, delivered rest)
read_text-quote s rest h =
    read_text-tokens s (mark "\"" ∷ rest) h
    ∙ ap (λ bs. prepend (bytes s) (read_text plain bs)) (delivered-mark (char_at "\"" 0) rest refl)
    ∙ ap (prepend (bytes s)) (read_text-end (delivered rest))
    ∙ ap (λ t. some (t, delivered rest)) (append-nil (bytes s))

-- What is made of the bytes behind a field.
read_fields-step :
    (fuel : ℕ) (key value ks vs rest : List ℕ)
    → read_text plain ks ≡ some (key, b':' ∷ b'"' ∷ vs)
    → read_text plain vs ≡ some (value, rest)
    → read_fields (suc fuel) (b'"' ∷ ks) ≡ add_field key value (read_end (read_fields fuel) rest)
unfolding read_fields
read_fields-step fuel key value ks vs rest h k = ground (arith, h, k)

read_fields-quoted :
    (fuel : ℕ) (k v : String) (rest : List Token)
    → all_fine k ≡ true
    → all_fine v ≡ true
    → read_fields (suc fuel) (delivered (quote_tokens k (mark ":" ∷ quote_tokens v rest)))
      ≡ add_field (bytes k) (bytes v) (read_end (read_fields fuel) (delivered rest))
unfolding quote_tokens
read_fields-quoted fuel k v rest hk hv =
    let value : List Token = tokens v ++ mark "\"" ∷ rest in
    ap (read_fields (suc fuel))
      (delivered-mark (char_at "\"" 0) (tokens k ++ mark "\"" ∷ mark ":" ∷ mark "\"" ∷ value) refl)
    ∙ read_fields-step fuel (bytes k) (bytes v) _ (delivered value) (delivered rest)
        (read_text-quote k (mark ":" ∷ mark "\"" ∷ value) hk
          ∙ ap (λ bs. some (bytes k, bs))
              (delivered-mark (char_at ":" 0) (mark "\"" ∷ value) refl
                ∙ ap (λ bs. b':' ∷ bs) (delivered-mark (char_at "\"" 0) value refl)))
        (read_text-quote v rest hv)

delivered-nil : delivered [] ≡ []
unfolding delivered reveal_all spell bytes
delivered-nil = refl

read_end-comma :
    (fuel : ℕ) (bs : List ℕ) → read_end (read_fields fuel) (b',' ∷ bs) ≡ read_fields fuel bs
unfolding read_fields
read_end-comma zero [] = refl
read_end-comma (suc fuel) [] = refl
read_end-comma fuel (b ∷ bs) = refl

-- The fields that are read.
abbrev pub field_bytes : List (String × String) → Fields
field_bytes [] = []
field_bytes ((k, v) ∷ fs) = (bytes k, bytes v) ∷ field_bytes fs

pub read_fields-tokens :
    (f : String × String) (fs : List (String × String)) (fuel : ℕ)
    → length fs < fuel
    → AreFine (f ∷ fs)
    → read_fields fuel (delivered (field_tokens (f ∷ fs) (mark "}" ∷ [])))
      ≡ some (field_bytes (f ∷ fs))
unfolding field_tokens
read_fields-tokens f fs zero h fine = absurd (omega arith)
read_fields-tokens (k, v) [] (suc fuel) h fine =
    read_fields-quoted fuel k v (mark "}" ∷ []) fine.0 fine.1
    ∙ ap (λ bs. add_field (bytes k) (bytes v) (read_end (read_fields fuel) bs))
        (delivered-mark (char_at "}" 0) [] refl ∙ ap (λ bs. b'}' ∷ bs) delivered-nil)
read_fields-tokens (k, v) (f ∷ fs) (suc fuel) h fine =
    read_fields-quoted fuel k v (mark "," ∷ field_tokens (f ∷ fs) (mark "}" ∷ [])) fine.0 fine.1
    ∙ ap (λ bs. add_field (bytes k) (bytes v) (read_end (read_fields fuel) bs))
        (delivered-mark (char_at "," 0) (field_tokens (f ∷ fs) (mark "}" ∷ [])) refl)
    ∙ ap (add_field (bytes k) (bytes v))
        (read_end-comma fuel (delivered (field_tokens (f ∷ fs) (mark "}" ∷ []))))
    ∙ ap (add_field (bytes k) (bytes v)) (read_fields-tokens f fs fuel (omega arith) fine.2)
