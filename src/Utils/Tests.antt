-- ===== src/Utils/Tests.antt =====
-- The text functions on inputs of the repository's tests, and others.
use aws_virtual_kubelet.Base.{◌≡◌, refl, [], ◌∷◌}
use aws_virtual_kubelet.Utils.{trimmed_string_split}
use aws_virtual_kubelet.Utils.Text.{replace_all, split}
use aws_virtual_kubelet.Utils.Base64.{encode_to_string}
use aws_virtual_kubelet.Utils.Json.{quote}

-- internal/utils/utils_test.go
trimmed_two :
    trimmed_string_split "subnet-0b36c1d32eb61d6cb, subnet-0b36c1d32eb6fdsa " ","
    ≡ "subnet-0b36c1d32eb61d6cb" ∷ "subnet-0b36c1d32eb6fdsa" ∷ []
unfolding trimmed_string_split
trimmed_two = refl

split_empty : split "" "," ≡ "" ∷ []
unfolding split
split_empty = refl

base64_padded : encode_to_string "Mana" ≡ "TWFuYQ=="
unfolding encode_to_string
base64_padded = refl

quoted : quote "a<b\"\n" ≡ "\"a\\u003cb\\\"\\n\""
unfolding quote
quoted = refl

replaced : replace_all "x\\u003cy\\u003c" "\\u003c" "<" ≡ "x<y<"
unfolding replace_all
replaced = refl
