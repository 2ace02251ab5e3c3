-- ===== src/Examples/Agents.antt =====
-- The theorems about the user data of an instance and the agent that reads it, each applied at
-- concrete data.
use aws_virtual_kubelet.Base.{
  ℕ, ◌+◌, ◌≡◌, refl, String, true, false, List, [], ◌∷◌, Option, none, some,
}
use aws_virtual_kubelet.Cloud.{ok}
use aws_virtual_kubelet.Process.{Process, done}
use aws_virtual_kubelet.Utils.Base64.{bytes}
use aws_virtual_kubelet.Utils.Decoding.{decode_string}
use aws_virtual_kubelet.Utils.Ascii.{decode_bytes}
use aws_virtual_kubelet.Utils.Reading.{Fields, read_object}
use aws_virtual_kubelet.Awsutils.UserData.{UserData, generate_vkvm_user_data, encode_user_data}
use aws_virtual_kubelet.Awsutils.Delivery.{field_bytes}
use aws_virtual_kubelet.Awsutils.Bootstrap.{members, inner_text, generate_vkvm_user_data-Delivered}
use aws_virtual_kubelet.SampleAgent.Unmarshal.{AgentUserData, set_fields}
use aws_virtual_kubelet.SampleAgent.{Machine}
use aws_virtual_kubelet.Scenario.{World, process, small_env}

abbrev sample_data : UserData
sample_data = record {
  vm_init = "curl -o agent <url> && chmod +x agent\n";
  bootstrap_agent = "\"agent\" --port 8200";
  presigned_url = "https://agent";
}

generate_vkvm_user_data-Delivered_example :
    (out inner : String) × (t : Process World) × (generate_vkvm_user_data "b" "k"
        sample_data.vm_init sample_data.bootstrap_agent
        (process 1)
      ≡ done (ok out) t)
    × (decode_string out ≡ bytes inner)
    × (read_object (decode_string inner) ≡ some (field_bytes (members sample_data)))
generate_vkvm_user_data-Delivered_example =
    generate_vkvm_user_data-Delivered (process 1) "b" "k" sample_data refl refl (refl, refl, refl)

-- The text that GenerateVKVMUserData returns.
abbrev sample_out : String
sample_out = encode_user_data (inner_text sample_data)

abbrev set_if_read : Option Fields → AgentUserData → AgentUserData
set_if_read none d = d
set_if_read (some fs) d = set_fields fs d

-- An instance in which everything succeeds; its state counts the servers.
abbrev instance_machine : Machine ℕ (List ℕ × List ℕ)
instance_machine = record {
  user_data = λ w. (ok (decode_string sample_out), w);
  identity_document = λ w. (ok [], w);
  decode_string = λ bs. (decode_bytes bs, false);
  unmarshal = λ bs. set_if_read (read_object bs);
  marshal_spec = λ _. [];
  write_file = λ _ _ w. (ok tt, w);
  generate_self_signed = λ w. (ok (1 ∷ [], 2 ∷ []), w);
  append_certs = elim [ [] ↦ false | _ ∷ _ ↦ true ];
  x509_key_pair = λ certificate key. ok (certificate, key);
  listen = λ _ w. (ok tt, w);
  serve = λ _ _ _ w. (ok tt, w + 1);
  go_serve = λ _ _ _ w. w + 1;
}
