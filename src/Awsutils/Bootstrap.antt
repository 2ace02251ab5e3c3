-- ===== src/Awsutils/Bootstrap.antt =====
-- GenerateVKVMUserData of internal/awsutils/ec2_client_utils.go: what an instance reads of its user
-- data.
use aws_virtual_kubelet.Base.{◌≡◌, refl, ap, ◌∙◌, String, List, [], ◌∷◌, some, true, arith}
use aws_virtual_kubelet.Cloud.{Env, ok}
use aws_virtual_kubelet.Process.{Process, done}
use aws_virtual_kubelet.Utils.Base64.{bytes}
use aws_virtual_kubelet.Utils.Decoding.{decode_string}
use aws_virtual_kubelet.Utils.Reading.{read_object}
use aws_virtual_kubelet.Awsutils.UserData.{
  UserData, json_marshal, encode_user_data, replace_html_escapes, generate_vkvm_user_data,
  new_client, sign_url,
}
use aws_virtual_kubelet.Awsutils.Encoding.{decode_string-encode_user_data}
use aws_virtual_kubelet.Awsutils.Spelling.{all_fine}
use aws_virtual_kubelet.Awsutils.Delivery.{field_bytes}
use aws_virtual_kubelet.Awsutils.Objects.{read_object-object}

-- The members of the JSON object of the user data, by the names that the agent expects.
abbrev pub members : UserData → List (String × String)
members d =
    ("vm-init-config", d.vm_init)
    ∷ ("bootstrap-agent-config", d.bootstrap_agent)
    ∷ ("bootstrap-agent-download-url", d.presigned_url)
    ∷ []

abbrev pub IsFine : UserData → Type 0
IsFine d =
    (all_fine d.vm_init ≡ true)
    × (all_fine d.bootstrap_agent ≡ true)
    × (all_fine d.presigned_url ≡ true)

abbrev pub inner_text : UserData → String
inner_text d = encode_user_data (replace_html_escapes (json_marshal d))

pub read-inner_text :
    (d : UserData)
    → IsFine d
    → read_object (decode_string (inner_text d)) ≡ some (field_bytes (members d))
unfolding json_marshal
read-inner_text d fine =
    ap read_object (decode_string-encode_user_data (replace_html_escapes (json_marshal d)))
    ∙ read_object-object ("vm-init-config", d.vm_init)
        (("bootstrap-agent-config", d.bootstrap_agent)
          ∷ ("bootstrap-agent-download-url", d.presigned_url)
          ∷ [])
        (refl, fine.0, (refl, fine.1, (refl, fine.2, tt)))

module _ {W : Type 0} ⦃env : Env W⦄ where
  -- The text is encoded twice.
  pub generate_vkvm_user_data-done :
      (s : Process W) (s3_bucket s3_key : String) (d : UserData)
      → (env.load_default_config s.world).0 ≡ ok tt
      → (env.presign_get_object s3_bucket s3_key (env.load_default_config s.world).1).0
        ≡ ok d.presigned_url
      → generate_vkvm_user_data s3_bucket s3_key d.vm_init d.bootstrap_agent s
        ≡ done (ok (encode_user_data (inner_text d))) (record s {
          world = (env.presign_get_object s3_bucket s3_key (env.load_default_config s.world).1).1;
        })
  unfolding generate_vkvm_user_data new_client sign_url
  generate_vkvm_user_data-done s s3_bucket s3_key d loaded signed = ground (arith, loaded, signed)

  -- If the AWS configuration loads and S3 signs the address of the agent, GenerateVKVMUserData returns
  -- a text. EC2 decodes one layer of it, and an instance that decodes the other one reads an object
  -- with just the two configured texts and the address, by the names that the agent expects: if the
  -- three have no backslash, no control character but tabs and line ends, and no U+2028 or U+2029.
  pub generate_vkvm_user_data-Delivered :
      (s : Process W) (s3_bucket s3_key : String) (d : UserData)
      → (env.load_default_config s.world).0 ≡ ok tt
      → (env.presign_get_object s3_bucket s3_key (env.load_default_config s.world).1).0
        ≡ ok d.presigned_url
      → IsFine d
      → (out inner : String) × (t : Process W) × (generate_vkvm_user_data s3_bucket s3_key d.vm_init
            d.bootstrap_agent s
          ≡ done (ok out) t)
        × (decode_string out ≡ bytes inner)
        × (read_object (decode_string inner) ≡ some (field_bytes (members d)))
  generate_vkvm_user_data-Delivered s s3_bucket s3_key d loaded signed fine = (
    encode_user_data (inner_text d),
    inner_text d,
    record s {
      world = (env.presign_get_object s3_bucket s3_key (env.load_default_config s.world).1).1;
    },
    generate_vkvm_user_data-done s s3_bucket s3_key d loaded signed,
    decode_string-encode_user_data (inner_text d),
    read-inner_text d fine,
  )
