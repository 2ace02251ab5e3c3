-- ===== src/Utils/Base64.antt =====
-- encoding/base64.StdEncoding over the bytes of a text, as EncodeUserData in
-- internal/awsutils/ec2_client_utils.go calls it.
use Prim.Native.Char.{Char, code}
use Prim.Native.String.{[] as nil, ◌∷◌ as cons, char_at}
use Prim.Native.Nat.{◌/◌}
use aws_virtual_kubelet.Base.{ℕ, ◌+◌, ◌*◌, ◌%◌, String, List, [], ◌∷◌, ◌++◌, ltb, if◌then◌else◌}

-- The UTF-8 bytes of a code point.
unfoldable pub utf8 : ℕ → List ℕ
utf8 n =
    if ltb n 0x80
    then n ∷ []
    else if ltb n 0x800
    then (192 + n / 64) ∷ (128 + n % 64) ∷ []
    else if ltb n 0x10000
    then (224 + n / 4096) ∷ (128 + n / 64 % 64) ∷ (128 + n % 64) ∷ []
    else (240 + n / 262144) ∷ (128 + n / 4096 % 64) ∷ (128 + n / 64 % 64) ∷ (128 + n % 64) ∷ []

unfoldable pub bytes : String → List ℕ
unfolding utf8
bytes String.[] = []
bytes (String.◌∷◌ c s) = utf8 (code c) ++ bytes s

abbrev alphabet : String
alphabet = "ABCDEFGHIJKLMNOPQRSTUVWXYZabcdefghijklmnopqrstuvwxyz0123456789+/"

-- Three bytes make four digits in base 64; the last group is filled up by `=` (the value 64).
unfoldable pub sextets : List ℕ → List ℕ
sextets [] = []
sextets (a ∷ []) = (a / 4) ∷ (a % 4 * 16) ∷ 64 ∷ 64 ∷ []
sextets (a ∷ b ∷ []) = (a / 4) ∷ (a % 4 * 16 + b / 16) ∷ (b % 16 * 4) ∷ 64 ∷ []
sextets (a ∷ b ∷ c ∷ rest) =
    (a / 4) ∷ (a % 4 * 16 + b / 16) ∷ (b % 16 * 4 + c / 64) ∷ (c % 64) ∷ sextets rest

unfoldable pub digit : ℕ → Char
digit n = if ltb n 64 then char_at alphabet n else char_at "=" 0

unfoldable pub digits : List ℕ → String
unfolding digit
digits [] = nil
digits (d ∷ ds) = cons (digit d) (digits ds)

unfoldable pub encode_to_string : String → String
unfolding bytes sextets digits
encode_to_string s = digits (sextets (bytes s))
