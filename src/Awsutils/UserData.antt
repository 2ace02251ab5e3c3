-- ===== src/Awsutils/UserData.antt =====
-- internal/awsutils/ec2_client_utils.go and the making of clients in ec2_client.go and s3_client.go.
use aws_virtual_kubelet.Base.{String, str_append, str_eq, List, [], ◌∷◌, none, some, if◌then◌else◌}
use aws_virtual_kubelet.Cloud.{Env, Result, ok, err, TagSpecification, Instance}
use aws_virtual_kubelet.Process.{Go, ◌>>=◌, pure, panic, call}
use aws_virtual_kubelet.Utils.Base64.{encode_to_string}
use aws_virtual_kubelet.Utils.Json.{object}
use aws_virtual_kubelet.Utils.Text.{replace_all}

module _ {W : Type 0} ⦃env : Env W⦄ where
  -- `NewEc2Client` and `NewS3Client`; `klog.Fatalf` ends the process.
  unfoldable pub new_client : Go W (Result (Unit {0}))
  new_client = do
    r ← call env.load_default_config
    elim r [ ok _ ↦ pure (ok tt) | err e ↦ panic (str_append "unable to load SDK config, " e) ]

  -- `SecurityGroupNametoID`
  unfoldable pub security_group_name_to_id : List String → Go W (Result (List String))
  security_group_name_to_id sg_names =
      call (env.describe_security_groups (record { name = "group-name"; values = sg_names }))

  -- `EC2RunInstancesUtil`
  unfoldable pub ec2_run_instances_util :
      String
      → String
      → String
      → String
      → List String
      → String
      → List TagSpecification
      → String
      → Go W (Result (List Instance))
  ec2_run_instances_util iam_instance_profile image_id instance_type key_name security_group_ids
        subnet_id tags user_data =
      call (
        env.run_instances (record {
          iam_instance_profile = iam_instance_profile;
          image_id = image_id;
          instance_type = instance_type;
          max_count = 1;
          min_count = 1;
          security_group_ids = security_group_ids;
          subnet_id = subnet_id;
          tag_specifications = tags;
          user_data = user_data;
          key_name = if str_eq key_name "" then none else some key_name;
        }))

  -- `SignURL`
  unfoldable pub sign_url : String → String → Go W (Result String)
  sign_url presign_bucket presign_key = call (env.presign_get_object presign_bucket presign_key)

-- `UserData`
pub record UserData : Type 0 where
  pub vm_init : String
  pub bootstrap_agent : String
  pub presigned_url : String

-- `json.Marshal` of it, with the names of its tags; it cannot fail on texts
unfoldable pub json_marshal : UserData → String
unfolding object
json_marshal data' = object (
    ("vm-init-config", data'.vm_init)
    ∷ ("bootstrap-agent-config", data'.bootstrap_agent)
    ∷ ("bootstrap-agent-download-url", data'.presigned_url)
    ∷ [])

-- `EncodeUserData`
unfoldable pub encode_user_data : String → String
unfolding encode_to_string
encode_user_data user_data = encode_to_string user_data

-- `replaceHTMLEscapes`
unfoldable pub replace_html_escapes : String → String
unfolding replace_all
replace_html_escapes string_data =
    replace_all (replace_all (replace_all string_data "\\u003c" "<") "\\u003e" ">") "\\u0026" "&"

-- `GenerateVKVMUserData`
module _ {W : Type 0} ⦃env : Env W⦄ where
  unfoldable pub generate_vkvm_user_data : String → String → String → String → Go W (Result String)
  unfolding new_client sign_url json_marshal encode_user_data replace_html_escapes
  generate_vkvm_user_data s3_bucket s3_key vm_init bootstrap_agent = do
    _ ← new_client
    url ← sign_url s3_bucket s3_key
    elim url [
      | ok u ↦
          let json =
            json_marshal (record {
              vm_init = vm_init;
              bootstrap_agent = bootstrap_agent;
              presigned_url = u;
            }) in
          pure (ok (encode_user_data (encode_user_data (replace_html_escapes json))))
      | err e ↦ pure (err e)
    ]
