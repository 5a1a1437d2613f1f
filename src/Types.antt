-- ===== src/Types.antt =====
-- The data that the agent's parts pass on: what libvirt's domain XML holds (libvirt/), the entries
-- of the image association map (util/util.go), the configuration (config/config.go), and the
-- parts of the Workload Service's answers that the agent reads.
use workload_agent.Prelude.{ℕ, String, Bool, Option, List}
use workload_agent.Prelude.Assoc.{Assoc}
use workload_agent.Prelude.Int.{ℤ}

-- An `error` that may be nil, as the text that its method `Error` returns.
abbrev pub Err : Type 0
Err = Option String

-- A Go result `(T, error)` whose value is not read when the error is not nil.
pub data Result {ℓ} (A : Type ℓ) : Type ℓ where
  ok : A → Result A
  err : String → Result A

-- `err != nil`
abbrev pub failed {ℓ} : {A : Type ℓ} → Result A → Bool
failed (ok a) = Bool.false
failed (err e) = Bool.true

abbrev pub Bytes : Type 0
Bytes = List ℕ

-- A value of a foreign package that the agent only hands on, as a number that stands for it.
abbrev pub Handle : Type 0
Handle = ℕ

pub record Source : Type 0 where
  pub file : String
  pub dev : String

pub record Root : Type 0 where
  pub uuid : String

pub record Domain : Type 0 where
  pub uuid : String
  pub root : Root
  pub disk : ℤ
  pub source : Source
  pub backing_store_source : Source

pub record ImageVmAssociation : Type 0 where
  pub image_path : String
  pub vm_count : ℤ

-- What `os.Stat` tells: the file's size and permission bits, an error that `os.IsNotExist`
-- recognises, or another error.
pub record FileInfo : Type 0 where
  pub size : ℕ
  pub perm : ℕ
  -- `Mode().IsRegular()`
  pub is_regular : Bool

pub data StatResult : Type 0 where
  found : FileInfo → StatResult
  missing : StatResult
  unreadable : String → StatResult

-- What `os.OpenFile` tells: no error, one that `os.IsNotExist` recognises, or another error.
pub data OpenResult : Type 0 where
  opened : OpenResult
  absent : OpenResult
  denied : String → OpenResult

-- What a command printed, and the error that it ended with; the caller reads both.
pub record CommandResult : Type 0 where
  pub output : String
  pub error : Err

-- What a command with a time limit printed, and the error that it ended with.
pub record RunResult : Type 0 where
  pub stdout : String
  pub stderr : String
  pub error : Err

-- The fields of `user.User` that the agent reads.
pub record User : Type 0 where
  pub uid : String
  pub gid : String

-- `wlsModel.FlavorKey`, with the fields that the agent reads.
pub record FlavorKey : Type 0 where
  pub meta_id : String
  pub encryption_required : Bool
  pub key_url : String
  pub flavor : Handle
  pub signature : String
  pub key : Bytes

-- `ocicrypt.AnnotationPacket` and `ocicrypt.AesPacket`.
pub record AnnotationPacket : Type 0 where
  pub key_url : String
  pub wrapped_key : Bytes

pub record AesPacket : Type 0 where
  pub nonce : Bytes
  pub ciphertext : Bytes

-- `tpmprovider.CertifiedKey`, with the fields that the agent reads.
pub record CertifiedKey : Type 0 where
  -- `Version == tpmprovider.V20`
  pub is_v20 : Bool
  pub public_key : Bytes
  pub key_attestation : Bytes
  pub key_signature : Bytes
  pub key_name : Bytes
  -- the fields that the agent only hands on
  pub rest : Handle

-- `wlaModel.RegisterKeyInfo`
pub record RegisterKeyInfo : Type 0 where
  pub public_key_modulus : Bytes
  pub tpm_certify_key : Bytes
  pub tpm_certify_key_signature : Bytes
  pub aik_der_certificate : Bytes
  pub name_digest : Bytes
  pub tpm_version : String
  pub os_type : String

-- `tpmprovider.Binding`, `tpmprovider.Signing` and any other number.
pub data KeyUsage : Type 0 where
  binding signing : KeyUsage
  other : ℤ → KeyUsage

-- The two goroutines of the daemon and the one of the gRPC service (main.go).
pub data Goroutine : Type 0 where
  watch_events serve_rpc serve_grpc : Goroutine

-- `crypt.SignedData`
pub record SignedData : Type 0 where
  pub data_bytes : Bytes
  pub alg : String
  pub cert : Bytes
  pub signature : Bytes

-- `fsnotify.Event`
pub record Event : Type 0 where
  pub name : String
  pub op : ℕ

-- The one kind of closure that the agent registers with its file watcher, with what it captures:
-- `wlavm.vmVolumeManager` removes a mount path when a file is deleted.
pub data Handler : Type 0 where
  remove_mount_path : String → Handler

-- `config.Configuration`. `logrus.Level` is a number.
pub record Configuration : Type 0 where
  pub binding_key_secret : String
  pub signing_key_secret : String
  pub cms_tls_cert_digest : String
  pub hvs_api_url : String
  pub wls_api_url : String
  pub wla_api_username : String
  pub wla_api_password : String
  pub trust_agent_config_dir : String
  pub trust_agent_aik_pem_file : String
  pub trust_agent_user : String
  pub aas_base_url : String
  pub cms_base_url : String
  pub skip_flavor_signature_verification : Bool
  pub log_level : ℕ
  pub log_max_length : ℤ
  pub config_complete : Bool
  pub log_enable_stdout : Bool

-- `util.ImageVMAssociations`, by image UUID.
abbrev pub ImageVmAssociations : Type 0
ImageVmAssociations = Assoc ImageVmAssociation
