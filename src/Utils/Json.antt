-- ===== src/Utils/Json.antt =====
-- encoding/json.Marshal of a struct of texts, as GenerateVKVMUserData calls it: with the escapes of
-- quotes, backslashes and control characters, and of `<`, `>` and `&`.
use Prim.Native.Char.{Char, code}
use Prim.Native.String.{[] as nil, ◌∷◌ as cons, char_at}
use Prim.Native.Nat.{◌/◌}
use aws_virtual_kubelet.Base.{
  ℕ, ◌%◌, String, str_append, List, [], ◌∷◌, ltb, ◌==◌, ◌||◌, if◌then◌else◌,
}

abbrev pub hex : ℕ → Char
hex n = char_at "0123456789abcdef" n

abbrev pub unicode_escape : ℕ → String
unicode_escape n = str_append "\\u" (
    cons (hex (n / 4096 % 16))
      (cons (hex (n / 256 % 16)) (cons (hex (n / 16 % 16)) (cons (hex (n % 16)) nil))))

unfoldable pub escape_char : Char → String
escape_char c =
    let n = code c in
    if n == b'"' || n == 0x5c
    then str_append "\\" (cons c nil)
    else if n == 10
    then "\\n"
    else if n == 13
    then "\\r"
    else if n == 9
    then "\\t"
    else if ltb n 32 || n == b'<' || n == b'>' || n == b'&' || n == 0x2028 || n == 0x2029
    then unicode_escape n
    else cons c nil

unfoldable pub escape : String → String
unfolding escape_char
escape String.[] = nil
escape (String.◌∷◌ c s) = str_append (escape_char c) (escape s)

unfoldable pub quote : String → String
unfolding escape
quote s = str_append "\"" (str_append (escape s) "\"")

-- The fields of an object, each with its name.
unfoldable pub fields : List (String × String) → String
unfolding quote
fields [] = nil
fields ((k, v) ∷ []) = str_append (quote k) (str_append ":" (quote v))
fields ((k, v) ∷ rest) =
    str_append (quote k) (str_append ":" (str_append (quote v) (str_append "," (fields rest))))

unfoldable pub object : List (String × String) → String
unfolding fields
object fs = str_append "{" (str_append (fields fs) "}")
