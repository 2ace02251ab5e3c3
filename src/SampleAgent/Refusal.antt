-- ===== src/SampleAgent/Refusal.antt =====
-- The bootstrap agent with the user data that GenerateVKVMUserData makes.
use aws_virtual_kubelet.Base.{[]}
use aws_virtual_kubelet.Process.{Process}
use aws_virtual_kubelet.Utils.Base64.{bytes}
use aws_virtual_kubelet.Awsutils.UserData.{UserData}
use aws_virtual_kubelet.SampleAgent.Unmarshal.{AgentUserData}

-- The user data without a certificate.
abbrev pub received : UserData → AgentUserData
received d = record {
  vm_init = bytes d.vm_init;
  bootstrap_agent = bytes d.bootstrap_agent;
  presigned_url = bytes d.presigned_url;
  ca_certificate = [];
}
