-- ===== src/SampleAgent.antt =====
-- examples/bootstrap_agent: the agent that the user data of an instance starts.
pub mod Unmarshal
pub mod Refusal
use aws_virtual_kubelet.Base.{
  ℕ, String, Bool, true, false, List, ◌∷◌, [], Option, none, some, if◌then◌else◌,
}
use aws_virtual_kubelet.Cloud.{Result, ok, err}
use aws_virtual_kubelet.Kube.{Pod}
use aws_virtual_kubelet.SampleAgent.Unmarshal.{AgentUserData, no_user_data}

-- The tls.Config of both servers. `C` is a certificate with its key; a client has to show one that
-- is signed by `client_cas`, since ClientAuth is RequireAndVerifyClientCert.
pub record TlsConfig (C : Type 0) : Type 0 where
  pub client_cas : List ℕ
  pub certificates : List C

pub data Service : Type 0 where
  agent_bootstrap application_lifecycle : Service

-- What the agent calls and does not implement. `W` is the state of the instance.
pub record Machine (W : Type 0) (C : Type 0) : Type 0 where
  -- `curl` of the user data and of the identity document
  pub user_data : W → Result (List ℕ) × W
  pub identity_document : W → Result (List ℕ) × W
  -- base64.StdEncoding.DecodeString: the bytes up to an error, and whether there is one
  pub decode_string : List ℕ → List ℕ × Bool
  -- json.Unmarshal into a UserData, whose error the agent ignores
  pub unmarshal : List ℕ → AgentUserData → AgentUserData
  -- json.Marshal of the PodSpec
  pub marshal_spec : Pod → List ℕ
  -- ioutil.WriteFile
  pub write_file : String → List ℕ → W → Result (Unit {0}) × W
  -- cert.GenerateSelfSignedCertKey
  pub generate_self_signed : W → Result (List ℕ × List ℕ) × W
  -- AppendCertsFromPEM of a new pool: whether a certificate was added
  pub append_certs : List ℕ → Bool
  -- tls.X509KeyPair
  pub x509_key_pair : List ℕ → List ℕ → Result C
  -- net.Listen at a port, and grpc.Server.Serve there
  pub listen : String → W → Result (Unit {0}) × W
  pub serve : String → TlsConfig C → Service → W → Result (Unit {0}) × W
  -- the goroutine that serves
  pub go_serve : String → TlsConfig C → Service → W → W

-- How a call ends: it returns, klog.Fatalf exits, or a nil pointer is read.
pub data Ending (W : Type 0) (A : Type 0) : Type 0 where
  returns : A → W → Ending W A
  exits nil_pointer : W → Ending W A

abbrev pub life_cycle_port : String
life_cycle_port = ":8200"

abbrev pub bootstrap_port : String
bootstrap_port = ":8300"

module _ {W C : Type 0} (machine : Machine W C) where
  -- `createFile`
  unfoldable pub create_file : Pod → W → Result (Unit {0}) × W
  create_file pod w = machine.write_file "/tmp/pod.json" (machine.marshal_spec pod) w

  -- `decodeUserData`: an error is only logged.
  unfoldable pub decode_user_data : List ℕ → List ℕ
  decode_user_data user_data = (machine.decode_string user_data).0

  -- `getUserData`
  unfoldable pub get_user_data : W → Result AgentUserData × W
  unfolding decode_user_data
  get_user_data w =
      let r = machine.user_data w in
      elim r.0 [
        | err e ↦ (err e, r.1)
        | ok raw ↦ (ok (machine.unmarshal (decode_user_data raw) no_user_data), r.1)
      ]

  -- `loadBootstrapServerCredentials`, and `loadLifeCycleServerCredentials` with another error
  unfoldable pub load_server_credentials : String → List ℕ → List ℕ → List ℕ → Result (TlsConfig C)
  load_server_credentials refusal certificate key ca_cert =
      if machine.append_certs ca_cert
      then elim (machine.x509_key_pair certificate key) [
        | err e ↦ err e
        | ok pair ↦ ok (record { client_cas = ca_cert; certificates = pair ∷ [] })
      ]
      else err refusal

  -- net.Listen, whose failure ends the agent, and what follows it
  abbrev at_port : String → (W → Ending W (Result (Unit {0}))) → W → Ending W (Result (Unit {0}))
  at_port port k w = let l = machine.listen port w in elim l.0 [ err _ ↦ exits l.1 | ok _ ↦ k l.1 ]

  -- The server of the bootstrap service: Serve returns when it has ended.
  abbrev bootstrap_service : TlsConfig C → W → Ending W (Result (Unit {0}))
  bootstrap_service creds w =
      let v = machine.serve bootstrap_port creds agent_bootstrap w in
      elim v.0 [ err _ ↦ exits v.1 | ok _ ↦ returns (ok tt) v.1 ]

  -- startBootstrapAgentServer from the credentials on
  abbrev bootstrap_with : Result (TlsConfig C) → W → Ending W (Result (Unit {0}))
  bootstrap_with (err e) w = returns (err e) w
  bootstrap_with (ok creds) w = at_port bootstrap_port (bootstrap_service creds) w

  -- startBootstrapAgentServer from the certificate on; without user data its pointer is nil.
  abbrev certified :
      Result AgentUserData → Result (List ℕ × List ℕ) → W → Ending W (Result (Unit {0}))
  certified user_data (err e) w = returns (err e) w
  certified (err _) (ok (certificate, key)) w = nil_pointer w
  certified (ok user_data) (ok (certificate, key)) w =
      bootstrap_with
        (load_server_credentials "failed to add CA's certificate for BootstrapServer " certificate
          key user_data.ca_certificate)
        w

  -- `startBootstrapAgentServer`
  unfoldable pub start_bootstrap_agent_server : W → Ending W (Result (Unit {0}))
  unfolding get_user_data load_server_credentials
  start_bootstrap_agent_server w =
      let u = get_user_data w in let c = machine.generate_self_signed u.1 in certified u.0 c.0 c.1

  -- startLifeCycleAgentServer from the credentials on: the server runs in a goroutine.
  abbrev life_cycle_with : Result (TlsConfig C) → W → Ending W (Result (Unit {0}))
  life_cycle_with (err e) w = returns (err e) w
  life_cycle_with (ok creds) w =
      at_port life_cycle_port
        (λ v. returns (ok tt) (machine.go_serve life_cycle_port creds application_lifecycle v)) w

  -- startLifeCycleAgentServer from the user data on
  abbrev life_cycle_of : Result AgentUserData → List ℕ → List ℕ → W → Ending W (Result (Unit {0}))
  life_cycle_of (err _) server_cert server_key w = nil_pointer w
  life_cycle_of (ok user_data) server_cert server_key w =
      life_cycle_with
        (load_server_credentials "failed to add CA's certificate for ApplicationLifeCycleServer"
          server_cert server_key user_data.ca_certificate)
        w

  -- `startLifeCycleAgentServer`
  unfoldable pub start_life_cycle_agent_server : List ℕ → List ℕ → W → Ending W (Result (Unit {0}))
  unfolding get_user_data load_server_credentials
  start_life_cycle_agent_server server_cert server_key w =
      let u = get_user_data w in life_cycle_of u.0 server_cert server_key u.1

  -- `LaunchAuthenticatedEndpoint`: the result of the start is dropped.
  unfoldable pub launch_authenticated_endpoint : List ℕ → List ℕ → W → Ending W (Result (Unit {0}))
  unfolding start_life_cycle_agent_server
  launch_authenticated_endpoint chain key w = elim (start_life_cycle_agent_server chain key w) [
    | returns _ v ↦ returns (ok tt) v
    | exits v ↦ exits v
    | nil_pointer v ↦ nil_pointer v
  ]

  -- `GetAgentIdentity`
  unfoldable pub get_agent_identity : W → Result (List ℕ) × W
  get_agent_identity w = machine.identity_document w

  -- `LaunchApplication`; a request without a pod is a nil pointer.
  unfoldable pub launch_application : Option Pod → W → Ending W (Result (Unit {0}))
  unfolding create_file
  launch_application none w = nil_pointer w
  launch_application (some pod) w = returns (create_file pod w).0 (create_file pod w).1
