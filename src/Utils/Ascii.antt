-- ===== src/Utils/Ascii.antt =====
-- encoding/base64.StdEncoding, where what it decodes is given by its bytes.
use Prim.Native.Char.{code}
use aws_virtual_kubelet.Base.{
  ℕ, zero, suc, ◌+◌, ◌-◌, ◌<◌, ◌≡◌, refl, ap, ◌∙◌, String, Bool, true, ◌&&◌, List, [], ◌∷◌, ◌++◌,
  map, ltb, ◌==◌, All, arith, if◌then◌else◌,
}
use aws_virtual_kubelet.Utils.Base64.{utf8, bytes, sextets, digit, digits, encode_to_string}
use aws_virtual_kubelet.Utils.Decoding.{
  IsDigit, digit_value, decode_groups, sextets-IsDigit, digit_value-digit, bytes-IsByte,
  decode_groups-sextets,
}

-- The value of a byte as a digit, and 64 for the padding and all else.
unfoldable pub byte_value : ℕ → ℕ
byte_value n =
    if ltb 64 n && ltb n 91
    then n - 65
    else if ltb 96 n && ltb n 123
    then n - 71
    else if ltb 47 n && ltb n 58
    then n + 4
    else if n == 43
    then 62
    else if n == 47
    then 63
    else 64

unfoldable pub decode_bytes : List ℕ → List ℕ
unfolding byte_value decode_groups
decode_bytes bs = decode_groups (map byte_value bs)

abbrev ascii_below : ℕ → Bool
ascii_below zero = true
ascii_below (suc n) = ltb (code (digit n)) 0x80 && ascii_below n

ascii_below-all : ascii_below 65 ≡ true
unfolding digit
ascii_below-all = refl

digit-below : (k n : ℕ) → ascii_below k ≡ true → n < k → ltb (code (digit n)) 0x80 ≡ true
digit-below zero n a h = absurd (omega arith)
digit-below (suc k) n a h = ground (arith, digit-below k n)

utf8-digit : (n : ℕ) → IsDigit n → utf8 (code (digit n)) ≡ code (digit n) ∷ []
unfolding utf8
utf8-digit n h = rw (digit-below 65 n ascii_below-all (omega arith))

byte_value-digit : (n : ℕ) → IsDigit n → byte_value (code (digit n)) ≡ n
unfolding byte_value digit_value
byte_value-digit n h = digit_value-digit n h

values-digits : (ds : List ℕ) → All IsDigit ds → map byte_value (bytes (digits ds)) ≡ ds
unfolding bytes digits
values-digits [] h = refl
values-digits (d ∷ ds) h =
    ap (λ bs. map byte_value (bs ++ bytes (digits ds))) (utf8-digit d h.0)
    ∙ ap (λ n. n ∷ map byte_value (bytes (digits ds))) (byte_value-digit d h.0)
    ∙ ap (λ ns. d ∷ ns) (values-digits ds h.1)

-- Decoding the bytes of an encoded text gives the bytes of the text.
pub decode_bytes-encode_to_string :
    (s : String) → decode_bytes (bytes (encode_to_string s)) ≡ bytes s
unfolding decode_bytes encode_to_string
decode_bytes-encode_to_string s =
    ap decode_groups
      (values-digits (sextets (bytes s)) (sextets-IsDigit (bytes s) (bytes-IsByte s)))
    ∙ decode_groups-sextets (bytes s) (bytes-IsByte s)
