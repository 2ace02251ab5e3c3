-- ===== src/Utils/Reading.antt =====
-- encoding/json as RFC 8259 defines the reading of an object of texts without white space, byte by
-- byte; what is outside of that, a surrogate in an escape too, is not read.
use aws_virtual_kubelet.Base.{
  ℕ, zero, suc, ◌+◌, ◌*◌, ◌-◌, Bool, ◌&&◌, ◌||◌, List, [], ◌∷◌, ◌++◌, Option, none, some, length,
  ltb, leb, ◌==◌, if◌then◌else◌,
}
use aws_virtual_kubelet.Utils.Base64.{utf8}

-- Within a text: as it stands, after a backslash, or with hexadecimal digits to come and their value
-- so far.
pub data Mode : Type 0 where
  plain escaped : Mode
  hexadecimal : ℕ → ℕ → Mode

-- What a byte does: the end of the text, no text, or bytes of it.
pub data Next : Type 0 where
  ends fails : Next
  goes : Mode → List ℕ → Next

abbrev digit_of : ℕ → Option ℕ
digit_of b =
    if leb b'0' b && leb b b'9'
    then some (b - b'0')
    else if leb b'a' b && leb b b'f'
    then some (b - b'a' + 10)
    else if leb b'A' b && leb b b'F'
    then some (b - b'A' + 10)
    else none

abbrev is_surrogate : ℕ → Bool
is_surrogate n = leb 0xd800 n && leb n 0xdfff

abbrev add_digit : ℕ → ℕ → Option ℕ → Next
add_digit n v none = fails
add_digit zero v (some d) =
    if is_surrogate (v * 16 + d) then fails else goes plain (utf8 (v * 16 + d))
add_digit (suc n) v (some d) = goes (hexadecimal n (v * 16 + d)) []

-- The byte that stands behind a backslash.
abbrev pub escaped_byte : ℕ → Option ℕ
escaped_byte b =
    if b == b'"' || b == 0x5c || b == b'/'
    then some b
    else if b == b'b'
    then some 8
    else if b == b'f'
    then some 12
    else if b == b'n'
    then some 10
    else if b == b'r'
    then some 13
    else if b == b't'
    then some 9
    else none

abbrev byte_of : Option ℕ → Next
byte_of none = fails
byte_of (some b) = goes plain (b ∷ [])

unfoldable pub next : Mode → ℕ → Next
next plain b =
    if b == b'"'
    then ends
    else if b == 0x5c
    then goes escaped []
    else if ltb b 32
    then fails
    else goes plain (b ∷ [])
next escaped b = if b == b'u' then goes (hexadecimal 3 0) [] else byte_of (escaped_byte b)
next (hexadecimal n v) b = add_digit n v (digit_of b)

abbrev pub Read : Type 0
Read = Option (List ℕ × List ℕ)

abbrev pub prepend : List ℕ → Read → Read
prepend out none = none
prepend out (some (text, rest)) = some (out ++ text, rest)

-- A text up to its closing quote, and what follows it.
unfoldable pub read_text : Mode → List ℕ → Read
unfolding next
read_text m [] = none
read_text m (b ∷ bs) = elim (next m b) [
  | ends ↦ some ([], bs)
  | fails ↦ none
  | goes m' out ↦ prepend out (read_text m' bs)
]

-- `expected`, and what follows it
abbrev pub after_byte {ℓ} : {A : Type ℓ} → ℕ → (List ℕ → Option A) → List ℕ → Option A
after_byte expected k [] = none
after_byte expected k (b ∷ bs) = if b == expected then k bs else none

abbrev pub after_text {ℓ} : {A : Type ℓ} → (List ℕ → List ℕ → Option A) → Read → Option A
after_text k none = none
after_text k (some (text, rest)) = k text rest

abbrev pub Fields : Type 0
Fields = List (List ℕ × List ℕ)

abbrev pub add_field : List ℕ → List ℕ → Option Fields → Option Fields
add_field key value none = none
add_field key value (some fs) = some ((key, value) ∷ fs)

-- The end of the object, or a comma and more fields.
abbrev pub read_end : (List ℕ → Option Fields) → List ℕ → Option Fields
read_end more [] = none
read_end more (b ∷ []) = if b == b'}' then some [] else none
read_end more (b ∷ bs) = if b == b',' then more bs else none

-- A field and what follows it; each has a byte at least, so that the length is enough fuel.
unfoldable pub read_fields : ℕ → List ℕ → Option Fields
unfolding read_text
read_fields zero bs = none
read_fields (suc fuel) bs =
    let more = read_fields fuel in
    after_byte b'"'
      (λ ks.
        after_text
          (λ key ks'.
            after_byte b':'
              (after_byte b'"' (λ vs.
                after_text (λ value vs'. add_field key value (read_end more vs'))
                  (read_text plain vs)))
              ks')
          (read_text plain ks))
      bs

-- An object that has a field.
unfoldable pub read_object : List ℕ → Option Fields
unfolding read_fields
read_object bs = after_byte b'{' (λ rest. read_fields (length rest) rest) bs
