-- ===== src/Awsutils/Encoding.antt =====
-- EncodeUserData of internal/awsutils/ec2_client_utils.go: what an instance reads of its user data.
use aws_virtual_kubelet.Base.{String, ◌≡◌}
use aws_virtual_kubelet.Utils.Base64.{bytes}
use aws_virtual_kubelet.Utils.Decoding.{decode_string, decode_string-encode_to_string}
use aws_virtual_kubelet.Awsutils.UserData.{encode_user_data}

-- The user data that EncodeUserData makes of a text decodes to the UTF-8 bytes of the text, by the
-- decoding of RFC 4648, whatever characters the text has and whatever padding its length needs.
pub decode_string-encode_user_data :
    (user_data : String) → decode_string (encode_user_data user_data) ≡ bytes user_data
unfolding encode_user_data
decode_string-encode_user_data user_data = decode_string-encode_to_string user_data
