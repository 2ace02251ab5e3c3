-- ===== src/SampleAgent/Unmarshal.antt =====
-- UserData of examples/bootstrap_agent/utils.go, and what encoding/json documents of reading it.
use aws_virtual_kubelet.Base.{
  ℕ, ◌+◌, String, Bool, true, false, ◌&&◌, List, [], ◌∷◌, map, some, ◌≡◌, ltb, leb, ◌==◌, All,
  if◌then◌else◌,
}
use aws_virtual_kubelet.Utils.Base64.{bytes, encode_to_string}
use aws_virtual_kubelet.Utils.Reading.{Fields, read_object}

-- `UserData`; a Go string is its bytes.
pub record AgentUserData : Type 0 where
  pub vm_init : List ℕ
  pub bootstrap_agent : List ℕ
  pub presigned_url : List ℕ
  pub ca_certificate : List ℕ

abbrev pub no_user_data : AgentUserData
no_user_data = record {
  vm_init = [];
  bootstrap_agent = [];
  presigned_url = [];
  ca_certificate = [];
}

abbrev same : List ℕ → List ℕ → Bool
same [] [] = true
same [] (_ ∷ _) = false
same (_ ∷ _) [] = false
same (a ∷ xs) (b ∷ ys) = a == b && same xs ys

abbrev lower : ℕ → ℕ
lower b = if leb b'A' b && leb b b'Z' then b + 32 else b

-- The name of a member is that of a field, in lower or upper case.
abbrev matches : List ℕ → String → Bool
matches key name = same (map lower key) (bytes name)

abbrev set_field : List ℕ → List ℕ → AgentUserData → AgentUserData
set_field key value d =
    if matches key "vm-init-config"
    then record d { vm_init = value }
    else if matches key "bootstrap-agent-config"
    then record d { bootstrap_agent = value }
    else if matches key "bootstrap-agent-download-url"
    then record d { presigned_url = value }
    else if matches key "bootstrap-agent-ca-cert"
    then record d { ca_certificate = value }
    else d

-- The members of an object, set one after the other.
abbrev pub set_fields : Fields → AgentUserData → AgentUserData
set_fields [] d = d
set_fields ((key, value) ∷ fs) d = set_fields fs (set_field key value d)

abbrev is_ascii : List ℕ → Bool
is_ascii [] = true
is_ascii (b ∷ bs) = ltb b 128 && is_ascii bs

abbrev pub AreAscii : Fields → Type 0
AreAscii fs = All (λ f. is_ascii f.0 ≡ true) fs

-- json.Unmarshal of an object of texts whose names are ASCII
abbrev pub IsUnmarshal : (List ℕ → AgentUserData → AgentUserData) → Type 0
IsUnmarshal unmarshal =
    (bs : List ℕ) (fs : Fields) (d : AgentUserData)
    → read_object bs ≡ some fs
    → AreAscii fs
    → unmarshal bs d ≡ set_fields fs d

-- base64.StdEncoding.DecodeString of what EncodeToString returned: the bytes, and no error
abbrev pub IsDecode : (List ℕ → List ℕ × Bool) → Type 0
IsDecode decode = (text : String) → decode (bytes (encode_to_string text)) ≡ (bytes text, false)
