-- ===== src/Awsutils/Transport.antt =====
-- What is read back of the text that json.Marshal and replaceHTMLEscapes have made.
use Prim.Native.Char.{Char, code}
use text.Mathlib.TextLemmas.{nil-append, cons-append}
use aws_virtual_kubelet.Base.{
  ℕ, ◌≡◌, refl, sym, ap, ◌∙◌, String, str_append, Bool, true, false, ◌&&◌, ◌||◌, not, List, [], ◌∷◌,
  ◌++◌, append_assoc, append-nil, Option, none, some, leb, ◌==◌, arith,
}
use aws_virtual_kubelet.Utils.Base64.{utf8, bytes}
use aws_virtual_kubelet.Utils.Reading.{plain, next, escaped_byte, Read, prepend, read_text}
use aws_virtual_kubelet.Utils.Tokens.{lt, gt, amp, Token, literal, backslashed, html, write}
use aws_virtual_kubelet.Awsutils.Revealing.{reveal}
use aws_virtual_kubelet.Awsutils.Spelling.{is_fine, token}

pub bytes-append : (a b : String) → bytes (str_append a b) ≡ bytes a ++ bytes b
unfolding bytes
bytes-append String.[] b = ap bytes (nil-append b)
bytes-append (String.◌∷◌ c a) b =
    ap bytes (cons-append c a b)
    ∙ ap (λ r. utf8 (code c) ++ r) (bytes-append a b)
    ∙ sym (append_assoc (utf8 (code c)) (bytes a) (bytes b))

-- A byte that stands for itself.
abbrev is_plain_byte : ℕ → Bool
is_plain_byte b = not (b == b'"') && not (b == 0x5c) && leb 32 b

abbrev all_plain_bytes : List ℕ → Bool
all_plain_bytes [] = true
all_plain_bytes (b ∷ bs) = is_plain_byte b && all_plain_bytes bs

pub prepend-prepend : (a b : List ℕ) (r : Read) → prepend a (prepend b r) ≡ prepend (a ++ b) r
prepend-prepend a b none = refl
prepend-prepend a b (some (text, rest)) = ap (λ t. some (t, rest)) (sym (append_assoc a b text))

read_text-plain :
    (b : ℕ) (bs : List ℕ)
    → is_plain_byte b ≡ true
    → read_text plain (b ∷ bs) ≡ prepend (b ∷ []) (read_text plain bs)
unfolding read_text next
read_text-plain b bs h = ground (arith, h)

read_text-bytes :
    (bs rest : List ℕ)
    → all_plain_bytes bs ≡ true
    → read_text plain (bs ++ rest) ≡ prepend bs (read_text plain rest)
read_text-bytes [] rest h = go (read_text plain rest)
  where
    go : (r : Read) → r ≡ prepend [] r
    go none = refl
    go (some (text, more)) = refl
read_text-bytes (b ∷ bs) rest h =
    read_text-plain b (bs ++ rest) (ground (arith, h))
    ∙ ap (prepend (b ∷ [])) (read_text-bytes bs rest (ground (arith, h)))
    ∙ prepend-prepend (b ∷ []) bs (read_text plain rest)

utf8-plain :
    (n : ℕ)
    → (not (n == b'"') && not (n == 0x5c) && leb 32 n) ≡ true
    → all_plain_bytes (utf8 n) ≡ true
unfolding utf8
utf8-plain n h = ground (arith, h)

-- What a piece stands for, and the pieces that can be read.
abbrev byte_or_none : Option ℕ → List ℕ
byte_or_none none = []
byte_or_none (some b) = b ∷ []

unfoldable pub meaning : Token → List ℕ
meaning (literal c) = utf8 (code c)
meaning (backslashed c) = byte_or_none (escaped_byte (code c))
meaning (html h) = []

unfoldable pub is_readable : Token → Bool
is_readable (literal c) = not (code c == b'"') && not (code c == 0x5c) && leb 32 (code c)
is_readable (backslashed c) = code c == b'"' || code c == b'n' || code c == b'r' || code c == b't'
is_readable (html h) = false

read_text-escaped :
    (b : ℕ) (rest : List ℕ)
    → (b == b'"' || b == b'n' || b == b'r' || b == b't') ≡ true
    → read_text plain (0x5c ∷ b ∷ rest)
      ≡ prepend (byte_or_none (escaped_byte b)) (read_text plain rest)
unfolding read_text next
read_text-escaped b rest h = ground (arith, h)

bytes-backslashed :
    (c : Char)
    → (code c == b'"' || code c == b'n' || code c == b'r' || code c == b't') ≡ true
    → bytes (write (backslashed c)) ≡ 0x5c ∷ code c ∷ []
unfolding bytes write utf8
bytes-backslashed c h = ground (arith, h)

pub bytes-literal : (c : Char) → bytes (write (literal c)) ≡ utf8 (code c)
unfolding bytes write
bytes-literal c = append-nil (utf8 (code c))

pub read_text-write :
    (t : Token) (rest : List ℕ)
    → is_readable t ≡ true
    → read_text plain (bytes (write t) ++ rest) ≡ prepend (meaning t) (read_text plain rest)
unfolding is_readable meaning
read_text-write (literal c) rest h =
    ap (λ bs. read_text plain (bs ++ rest)) (bytes-literal c)
    ∙ read_text-bytes (utf8 (code c)) rest (utf8-plain (code c) h)
read_text-write (backslashed c) rest h =
    ap (λ bs. read_text plain (bs ++ rest)) (bytes-backslashed c h)
    ∙ read_text-escaped (code c) rest h
read_text-write (html k) rest h = absurd (cc)

-- The piece of a character, with the escapes for HTML undone.
unfoldable pub revealed : Char → Token
revealed c = reveal amp (reveal gt (reveal lt (token c)))

pub revealed-is_readable : (c : Char) → is_fine c ≡ true → is_readable (revealed c) ≡ true
unfolding is_readable revealed reveal token
revealed-is_readable c h = ground (arith, h)

pub revealed-meaning : (c : Char) → is_fine c ≡ true → meaning (revealed c) ≡ utf8 (code c)
unfolding meaning revealed reveal token utf8
revealed-meaning c h = ground (arith, h)
