-- ===== src/World/Calls.antt =====
-- Each constructor of `Call` is one call of the operating system, a foreign package or a lock.
-- `Env` answers a call from the calls before it, so it stands for any behaviour of the outside.
use workload_agent.Prelude.{ℕ, String, Bool, Option, List}
use workload_agent.Prelude.Assoc.{Assoc}
use workload_agent.Prelude.Int.{ℤ}
use workload_agent.Types.{
  Err, Result, Bytes, Handle, Domain, ImageVmAssociations, SignedData, CertifiedKey,
  RegisterKeyInfo, Goroutine, StatResult, OpenResult, CommandResult, RunResult, User, FlavorKey,
  AnnotationPacket, AesPacket, Handler, Configuration,
}

-- The package-level mutexes of util, wlavm, rpc and filewatch.
pub data Mutex : Type 0 where
  map_mtx img_volume_mtx vm_volume_mtx tpm_mtx stop_mtx wla_mtx watcher_mtx : Mutex

pub data Call : Type 0 where
  -- package sync; a read lock excludes what a lock excludes
  lock unlock rlock runlock : Mutex → Call
  -- packages os and io/ioutil
  readlink stat remove_all close read_file read_all : String → Call
  mkdir_all chmod : String → ℕ → Call
  -- `os.OpenFile`: the path, whether it truncates, the permission bits
  open_file : String → Bool → ℕ → Call
  write_file : String → Bytes → ℕ → Call
  symlink : String → String → Call
  -- `os.OpenFile` of a file that is appended to, and the permission bits of a new one
  open_append : String → ℕ → Call
  -- `os.OpenFile` of a file that is not created, and `os.Open`
  open_existing open_read : String → Call
  -- `WriteString` on an open file, `os.Remove`, `pem.Encode` into an open file with the block's type
  write_string : String → Bytes → Call
  remove : String → Call
  pem_encode : String → String → Bytes → Call
  -- `os.Lchown`, `os.Chown` and `osutil.ChownR`
  lchown chown chown_r : String → ℤ → ℤ → Call
  user_lookup : String → Call
  -- `exec.ExecuteCommand`
  execute_command : String → List String → Call
  -- `exec.RunCommandWithTimeout`
  run_command : String → ℕ → Call
  -- packages encoding/xml, encoding/json and yaml
  xml_unmarshal : String → Call
  yaml_marshal : ImageVmAssociations → Call
  -- `yaml.Unmarshal` into a map that may hold entries already
  yaml_unmarshal : Bytes → ImageVmAssociations → Call
  json_unmarshal_certified_key json_unmarshal_wrap_input : Bytes → Call
  json_unmarshal_annotation json_unmarshal_aes : Bytes → Call
  json_marshal_flavor json_marshal_report : Handle → Call
  json_marshal_unwrap_output : Bytes → Call
  json_marshal_signed : SignedData → Call
  json_marshal_key : CertifiedKey → Call
  -- the response to a registration, of a signing key or else a binding key
  json_unmarshal_key_cert : Bool → Bytes → Call
  -- packages encoding/pem and crypto/x509
  pem_decode parse_certificate : Bytes → Call
  -- the YAML encoder, on the file that it writes to, and the decoder of the configuration
  yaml_encode_config : String → Configuration → Call
  yaml_decode_config : Configuration → Call
  -- `Context.GetenvString` of package setup: the variable and its description
  getenv_string getenv_secret getenv_int : String → String → Call
  -- `FlagSet.Parse` with the one flag `force`, on the set's name and the arguments
  parse_force : String → List String → Call
  -- `filepath.Join` and `logrus.ParseLevel`
  filepath_join : String → String → Call
  parse_level : String → Call
  -- `pinfo.HardwareUUID`, `crypt.EncryptionHeaderExists`
  hardware_uuid : Call
  encryption_header_exists : String → Call
  -- package vml
  create_volume : String → String → Bytes → ℤ → Call
  delete_volume unmount : String → Call
  mount : String → String → Call
  decrypt : Bytes → Bytes → Call
  create_vm_manifest : String → String → String → Bool → Call
  -- package verifier, `crypt.GetHashData` and `crypt.GetHashingAlgorithmName`
  verify : Handle → Handle → String → String → String → Bool → Call
  get_hash_data : Bytes → Call
  get_hashing_algorithm_name : Call
  -- package wlsclient: the factory from its five arguments, and the clients' requests
  new_wls_client_factory : String → String → String → String → String → Call
  flavors_client reports_client keys_client : Call
  wls_get_image_flavor_key : String → String → Call
  wls_get_image_flavor : String → String → Call
  wls_post_vm_report : Bytes → Call
  wls_get_key_with_url : String → String → Call
  -- package net/url
  url_parse : String → Call
  -- package tpmprovider
  new_tpm_factory new_tpm_provider tpm_close : Call
  create_binding_key create_signing_key : String → Call
  tpm_unbind : CertifiedKey → String → Bytes → Call
  tpm_sign : CertifiedKey → String → Bytes → Call
  -- packages crypto/aes and crypto/cipher
  new_aes_cipher : Bytes → Call
  new_gcm : Call
  gcm_open : Bytes → Bytes → Call
  -- package hvsclient: the factory from the URL, the token and the directory, and the requests, for
  -- a signing key or else a binding key
  new_vs_client_factory : String → String → String → Call
  certify_host_keys_client : Call
  certify_host_key : Bool → Option RegisterKeyInfo → Call
  -- `crypt.GetRandomBytes`
  get_random_bytes : ℕ → Call
  -- package proc
  add_task : Bool → Call
  task_done : Call
  wait_for_quit : Call
  -- `validation.ValidateXMLString`
  validate_xml_string : String → Call
  validate_strings : List String → Call
  -- `fsnotify.Watcher.Add` and `fsnotify.NewWatcher`
  watcher_add : String → Call
  new_fsnotify_watcher close_watcher : Call
  -- packages net, net/rpc and google.golang.org/grpc
  dial listen : String → Call
  close_listener close_connection close_client : Call
  rpc_call : String → String → Call
  register_vm accept_rpc : Call
  new_grpc_server register_key_provider notify_signals serve_grpc_listener graceful_stop : Call
  -- `SetLogger` for the security log or else the default log: the level, the longest entry, whether it
  -- writes to the standard output, and its files
  set_logger : Bool → ℕ → ℤ → Bool → List String → Call
  -- `go`
  spawn : Goroutine → Call
  -- text that the command line prints
  print : String → Call

-- The type of a call's answer.
abbrev pub Reply : Call → Type 0
Reply (lock m) = Unit
Reply (unlock m) = Unit
Reply (rlock m) = Unit
Reply (runlock m) = Unit
Reply (readlink path) = Result String
Reply (stat path) = StatResult
Reply (read_file path) = Result Bytes
Reply (read_all path) = Result Bytes
Reply (user_lookup name) = Result User
Reply (execute_command name args) = CommandResult
Reply (xml_unmarshal text) = Result Domain
Reply (yaml_marshal m) = Result Bytes
-- the map afterwards, beside the error
Reply (yaml_unmarshal text m) = ImageVmAssociations × Err
Reply (open_existing path) = OpenResult
-- the configuration afterwards, beside the error
Reply (yaml_decode_config c) = Configuration × Err
Reply (getenv_string name description) = Result String
Reply (getenv_secret name description) = Result String
Reply (getenv_int name description) = Result ℤ
Reply (parse_force name flags) = Result Bool
Reply (run_command command seconds) = RunResult
Reply (json_marshal_key key) = Result Bytes
-- the certificate of the response
Reply (json_unmarshal_key_cert is_signing text) = Result Bytes
-- the bytes of the first block, if there is one
Reply (pem_decode text) = Option Bytes
-- the key, which may be nil, beside the error
Reply (create_binding_key secret) = Option CertifiedKey × Err
Reply (create_signing_key secret) = Option CertifiedKey × Err
Reply (certify_host_key is_signing key) = Result Bytes
Reply (get_random_bytes n) = Result Bytes
-- the reply afterwards, beside the error
Reply (rpc_call method xml) = Bool × Err
-- whether the server is not nil
Reply new_grpc_server = Bool
Reply close_watcher = Unit
Reply close_listener = Unit
Reply close_connection = Unit
Reply close_client = Unit
Reply accept_rpc = Unit
Reply register_key_provider = Unit
Reply notify_signals = Unit
Reply graceful_stop = Unit
Reply (set_logger is_security level length to_stdout files) = Unit
Reply (spawn g) = Unit
Reply (print text) = Unit
Reply (filepath_join path name) = String
Reply (parse_level name) = Result ℕ
Reply (json_unmarshal_certified_key text) = Result CertifiedKey
-- the annotation of the unwrap parameters
Reply (json_unmarshal_wrap_input text) = Result Bytes
Reply (json_unmarshal_annotation text) = Result AnnotationPacket
Reply (json_unmarshal_aes text) = Result AesPacket
Reply (json_marshal_flavor flavor) = Result String
Reply (json_marshal_report report) = Result Bytes
Reply (json_marshal_unwrap_output key) = Result Bytes
Reply (json_marshal_signed report) = Result Bytes
Reply hardware_uuid = Result String
Reply (encryption_header_exists path) = Result Bool
Reply (decrypt text key) = Result Bytes
Reply (create_vm_manifest vm hardware image encrypted) = Result Handle
-- whether the report is an `*InstanceTrustReport`, and the report
Reply (verify manifest flavor signature dir ca_dir skip) = Result (Bool × Handle)
Reply get_hashing_algorithm_name = String
Reply (get_hash_data text) = Result Bytes
Reply (wls_get_image_flavor_key image hardware) = FlavorKey × Err
Reply (wls_get_image_flavor image part) = Handle × Err
Reply (wls_get_key_with_url url hardware) = Bytes × Err
Reply (url_parse url) = Result String
-- whether the provider is not nil, beside the error
Reply new_tpm_provider = Bool × Err
Reply (tpm_unbind key secret wrapped) = Result Bytes
Reply (tpm_sign key secret hash) = Result Bytes
Reply (gcm_open nonce text) = Result Bytes
Reply tpm_close = Unit
Reply task_done = Unit
Reply c = Err

pub record Env : Type 0 where
  -- the answer to a call, from the calls before it, the latest first
  pub answer : (c : Call) → List Call → Reply c
  -- `errors.Wrap` and `errors.Wrapf` of github.com/pkg/errors, on the error and the message
  pub wrap : Err → String → Err
  -- the value that `strconv.Atoi` returns, 0 where the text is no number
  pub atoi : String → ℤ
  -- `fsnotify.Remove`
  pub fsnotify_remove : ℕ
  -- `logrus.InfoLevel`
  pub info_level : ℕ
  -- `strings.ToLower`
  pub to_lower : String → String

-- What the agent's packages keep in variables, and every call made so far, the latest first.
pub record State : Type 0 where
  pub trace : List Call
  -- `util.ImageVMAssociations`
  pub associations : ImageVmAssociations
  -- `flavor.imageKeyID`
  pub image_key_id : Assoc String
  -- the handlers of the daemon's one `filewatch.Watcher`
  pub handlers : Assoc Handler
  -- `config.Configuration`
  pub config : Configuration
