-- ===== src/Utils/Decoding.antt =====
-- encoding/base64.StdEncoding as RFC 4648 defines its decoding, and the encoding of Base64.
use Prim.Native.Char.{Char, char, code}
use Prim.Native.Nat.{◌/◌}
use aws_virtual_kubelet.Base.{
  ℕ, zero, suc, ◌+◌, ◌*◌, ◌-◌, ◌%◌, ◌≤◌, ◌<◌, ◌≡◌, refl, ap, ◌∙◌, String, Bool, true, ◌&&◌, List,
  [], ◌∷◌, ◌++◌, ltb, ◌==◌, ==_iff, All, arith, if◌then◌else◌,
}
use aws_virtual_kubelet.Utils.Base64.{utf8, bytes, sextets, digit, digits, encode_to_string}

-- The value of a digit, and 64 for the padding and all else.
unfoldable pub digit_value : Char → ℕ
digit_value c =
    let n = code c in
    if ltb 64 n && ltb n 91
    then n - 65
    else if ltb 96 n && ltb n 123
    then n - 71
    else if ltb 47 n && ltb n 58
    then n + 4
    else if n == 43
    then 62
    else if n == 47
    then 63
    else 64

unfoldable pub digit_values : String → List ℕ
unfolding digit_value
digit_values String.[] = []
digit_values (String.◌∷◌ c s) = digit_value c ∷ digit_values s

-- The bytes of a group of four digits: one, two or three.
abbrev pub group_bytes : (w x y z : ℕ) → List ℕ
group_bytes w x y z =
    if y == 64
    then (w * 4 + x / 16) ∷ []
    else if z == 64
    then (w * 4 + x / 16) ∷ (x % 16 * 16 + y / 4) ∷ []
    else (w * 4 + x / 16) ∷ (x % 16 * 16 + y / 4) ∷ (y % 4 * 64 + z) ∷ []

unfoldable pub decode_groups : List ℕ → List ℕ
decode_groups (w ∷ x ∷ y ∷ z ∷ rest) = group_bytes w x y z ++ decode_groups rest
decode_groups _ = []

unfoldable pub decode_string : String → List ℕ
unfolding digit_values decode_groups
decode_string s = decode_groups (digit_values s)

abbrev pub IsByte : ℕ → Type 0
IsByte n = n < 256

abbrev pub IsDigit : ℕ → Type 0
IsDigit n = n ≤ 64

pub decode_groups-sextets : (bs : List ℕ) → All IsByte bs → decode_groups (sextets bs) ≡ bs
unfolding decode_groups sextets
decode_groups-sextets [] h = refl
decode_groups-sextets (a ∷ []) h = ground arith
decode_groups-sextets (a ∷ b ∷ []) h = ground arith
decode_groups-sextets (a ∷ b ∷ c ∷ rest) h = ground (arith, decode_groups-sextets rest h.1.1.1)

pub sextets-IsDigit : (bs : List ℕ) → All IsByte bs → All IsDigit (sextets bs)
unfolding sextets
sextets-IsDigit [] h = tt
sextets-IsDigit (a ∷ []) h = ground arith
sextets-IsDigit (a ∷ b ∷ []) h = ground arith
sextets-IsDigit (a ∷ b ∷ c ∷ rest) h = ground (arith, sextets-IsDigit rest h.1.1.1)

-- All digits below a number have their values.
abbrev agree_below : ℕ → Bool
agree_below zero = true
agree_below (suc n) = (digit_value (digit n) == n) && agree_below n

agree_below-all : agree_below 65 ≡ true
unfolding digit digit_value
agree_below-all = refl

digit_value-below : (k n : ℕ) → agree_below k ≡ true → n < k → digit_value (digit n) ≡ n
digit_value-below zero n a h = absurd (omega arith)
digit_value-below (suc k) n a h =
    ground (arith, ==_iff (digit_value (digit k)) k, digit_value-below k n)

pub digit_value-digit : (n : ℕ) → IsDigit n → digit_value (digit n) ≡ n
digit_value-digit n h = digit_value-below 65 n agree_below-all (omega arith)

digit_values-digits : (ds : List ℕ) → All IsDigit ds → digit_values (digits ds) ≡ ds
unfolding digit_values digits
digit_values-digits [] h = refl
digit_values-digits (d ∷ ds) h =
    ap (λ n. n ∷ digit_values (digits ds)) (digit_value-digit d h.0)
    ∙ ap (λ ns. d ∷ ns) (digit_values-digits ds h.1)

utf8-IsByte : (n : ℕ) → n < 1114112 → All IsByte (utf8 n)
unfolding utf8
utf8-IsByte n h = ground arith

pub code-lt : (c : Char) → code c < 1114112
code-lt (char n scalar) = ground (arith, scalar)

All-append : (xs ys : List ℕ) → All IsByte xs → All IsByte ys → All IsByte (xs ++ ys)
All-append [] ys h k = k
All-append (x ∷ xs) ys h k = (h.0, All-append xs ys h.1 k)

pub bytes-IsByte : (s : String) → All IsByte (bytes s)
unfolding bytes
bytes-IsByte String.[] = tt
bytes-IsByte (String.◌∷◌ c s) =
    All-append (utf8 (code c)) (bytes s) (utf8-IsByte (code c) (code-lt c)) (bytes-IsByte s)

-- Decoding undoes the encoding, up to the bytes of the characters.
pub decode_string-encode_to_string : (s : String) → decode_string (encode_to_string s) ≡ bytes s
unfolding decode_string encode_to_string
decode_string-encode_to_string s =
    ap decode_groups
      (digit_values-digits (sextets (bytes s)) (sextets-IsDigit (bytes s) (bytes-IsByte s)))
    ∙ decode_groups-sextets (bytes s) (bytes-IsByte s)
