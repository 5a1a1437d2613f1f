-- ===== src/Tests/Calm.antt =====
-- An outside world in which calls succeed, but that a VM's disk is no symlink and the configuration
-- file is not there yet; it keeps what is written to a file. Its YAML package writes the maps that
-- hold one given image, by the image's count.
use workload_agent.Prelude.{
  ℕ, String, ◌≡◌, ◌<>◌, refl, true, false, none, some, List, [], ◌∷◌, ◌&&◌, str_eq, eq_iff, arith,
  if◌then◌else◌,
}
use workload_agent.Prelude.Int.{ℤ, pos, negsuc}
use workload_agent.Association.Persistence.{KeepsFiles, WrapsErrors}
use workload_agent.Consts.{mount_path}
use workload_agent.Types.{
  CertifiedKey, Err, Result, ok, err, Bytes, Domain, FlavorKey, ImageVmAssociations, found, absent,
  Configuration,
}
use workload_agent.World.{
  Env, State, Call, Reply, lock, unlock, rlock, runlock, readlink, stat, read_file, read_all,
  user_lookup, execute_command, xml_unmarshal, yaml_marshal, yaml_unmarshal,
  json_unmarshal_certified_key, json_unmarshal_wrap_input, json_unmarshal_annotation,
  json_unmarshal_aes, json_marshal_flavor, json_marshal_report, json_marshal_unwrap_output,
  json_marshal_signed, hardware_uuid, encryption_header_exists, decrypt, create_vm_manifest, verify,
  get_hashing_algorithm_name, get_hash_data, wls_get_image_flavor_key, wls_get_image_flavor,
  wls_get_key_with_url, url_parse, new_tpm_provider, tpm_unbind, tpm_sign, gcm_open, tpm_close,
  task_done, write_file, remove_all, open_existing, yaml_decode_config, getenv_string,
  filepath_join, parse_level, getenv_secret, getenv_int, parse_force, run_command, json_marshal_key,
  json_unmarshal_key_cert, pem_decode, create_binding_key, create_signing_key, certify_host_key,
  get_random_bytes, rpc_call, new_grpc_server, close_watcher, close_listener, close_connection,
  close_client, accept_rpc, register_key_provider, notify_signals, graceful_stop, spawn, set_logger,
  print,
}

abbrev pub crypto_path : String
crypto_path = mount_path <> "image/image"

abbrev pub counted : ℕ → ImageVmAssociations
counted n = ("image", record { image_path = crypto_path; vm_count = pos n }) ∷ []

abbrev marshal_entry : String → String → ℤ → Result Bytes
marshal_entry uuid path (pos n) =
    if str_eq uuid "image" && str_eq path crypto_path then ok (n ∷ []) else err "another image"
marshal_entry uuid path (negsuc n) = err "a count below 0"

abbrev marshal : ImageVmAssociations → Result Bytes
marshal ((uuid, a) ∷ []) = marshal_entry uuid a.image_path a.vm_count
marshal m = err "not one image"

abbrev unmarshal : Bytes → ImageVmAssociations × Err
unmarshal (n ∷ []) = (counted n, none)
unmarshal text = ([], some "not one count")

-- What the last write has left.
abbrev contents : List Call → Bytes
contents [] = []
contents (write_file path text n ∷ t) = text
contents (_ ∷ t) = contents t

abbrev pub encrypted_domain : Domain
encrypted_domain = record {
  uuid = "vm";
  root = record { uuid = "image" };
  disk = pos 10;
  source = record { file = "/vm/disk"; dev = "" };
  backing_store_source = record { file = crypto_path; dev = "" };
}

abbrev pub flavor_key : FlavorKey
flavor_key = record {
  meta_id = "flavor";
  encryption_required = true;
  key_url = "/keys/key/transfer";
  flavor = 1;
  signature = "signature";
  key = 7 ∷ [];
}

abbrev pub certified_key : CertifiedKey
certified_key = record {
  is_v20 = true;
  public_key = 1 ∷ [];
  key_attestation = 1 ∷ 2 ∷ 3 ∷ [];
  key_signature = 4 ∷ [];
  key_name = 5 ∷ 6 ∷ [];
  rest = 0;
}

abbrev answer : (c : Call) → List Call → Reply c
answer (lock m) t = tt
answer (unlock m) t = tt
answer (rlock m) t = tt
answer (runlock m) t = tt
answer (readlink p) t = err "no link"
answer (stat p) t = found (record { size = 1; perm = 0o600; is_regular = true })
answer (read_file p) t = ok (1 ∷ [])
answer (read_all p) t = ok (contents t)
answer (user_lookup name) t = ok (record { uid = "107"; gid = "107" })
answer (execute_command name args) t = record { output = "active"; error = none }
answer (xml_unmarshal text) t = ok encrypted_domain
answer (yaml_marshal m) t = marshal m
answer (yaml_unmarshal text m) t = unmarshal text
answer (json_unmarshal_certified_key text) t = ok certified_key
answer (json_unmarshal_wrap_input text) t = ok (1 ∷ [])
answer (json_unmarshal_annotation text) t = ok (record { key_url = "url"; wrapped_key = [] })
answer (json_unmarshal_aes text) t = ok (record { nonce = []; ciphertext = [] })
answer (json_marshal_flavor flavor) t = ok "flavor"
answer (json_marshal_report report) t = ok (1 ∷ [])
answer (json_marshal_unwrap_output key) t = ok key
answer (json_marshal_signed report) t = ok (1 ∷ [])
answer (open_existing p) t = absent
answer (yaml_decode_config c) t = (c, none)
answer (getenv_string name description) t = ok "value"
answer (filepath_join p name) t = p <> ("/" <> name)
answer (parse_level name) t = ok 5
answer (getenv_secret name description) t = ok "secret"
answer (getenv_int name description) t = ok (pos 500)
answer (parse_force name flags) t = ok true
answer (run_command command seconds) t = record { stdout = ""; stderr = ""; error = none }
answer (json_marshal_key key) t = ok (1 ∷ [])
answer (json_unmarshal_key_cert is_signing text) t = ok text
answer (pem_decode text) t = some text
answer (create_binding_key secret) t = (some certified_key, none)
answer (create_signing_key secret) t = (some certified_key, none)
answer (certify_host_key is_signing key) t = ok (9 ∷ [])
answer (get_random_bytes n) t = ok (171 ∷ [])
answer (rpc_call method xml) t = (true, none)
answer new_grpc_server t = true
answer close_watcher t = tt
answer close_listener t = tt
answer close_connection t = tt
answer close_client t = tt
answer accept_rpc t = tt
answer register_key_provider t = tt
answer notify_signals t = tt
answer graceful_stop t = tt
answer (set_logger is_security level length to_stdout files) t = tt
answer (spawn g) t = tt
answer (print text) t = tt
answer hardware_uuid t = ok "hardware"
answer (encryption_header_exists p) t = ok true
answer (decrypt text key) t = ok text
answer (create_vm_manifest vm hardware image encrypted) t = ok 1
answer (verify manifest flavor signature dir ca_dir skip) t = ok (true, 1)
answer get_hashing_algorithm_name t = "SHA-384"
answer (get_hash_data text) t = ok text
answer (wls_get_image_flavor_key image hardware) t = (flavor_key, none)
answer (wls_get_image_flavor image part) t = (1, none)
answer (wls_get_key_with_url url hardware) t = (7 ∷ [], none)
answer (url_parse url) t = ok url
answer new_tpm_provider t = (true, none)
answer (tpm_unbind key secret wrapped) t = ok wrapped
answer (tpm_sign key secret hash) t = ok hash
answer (gcm_open nonce text) t = ok text
answer tpm_close t = tt
answer task_done t = tt
answer c t = none

abbrev wrap : Err → String → Err
wrap none message = none
wrap (some e) message = some (message <> e)

abbrev pub calm : Env
calm = record {
  answer = answer;
  wrap = wrap;
  atoi = λ text. pos 107;
  fsnotify_remove = 4;
  info_level = 4;
  to_lower = λ text. text;
}

-- The calm world, but that nothing can be removed.
abbrev stuck_answer : (c : Call) → List Call → Reply c
stuck_answer (remove_all p) t = some "busy"
stuck_answer c t = answer c t

abbrev pub stuck : Env
stuck = record calm { answer = stuck_answer }

-- The calm world, but that the key's URL has no slash.
abbrev pub slashless_key : FlavorKey
slashless_key = record flavor_key { key_url = "key" }

abbrev slashless_answer : (c : Call) → List Call → Reply c
slashless_answer (wls_get_image_flavor_key image hardware) t = (slashless_key, none)
slashless_answer c t = answer c t

abbrev pub slashless : Env
slashless = record calm { answer = slashless_answer }

abbrev config : Configuration
config = record {
  binding_key_secret = "";
  signing_key_secret = "";
  cms_tls_cert_digest = "";
  hvs_api_url = "";
  wls_api_url = "";
  wla_api_username = "";
  wla_api_password = "";
  trust_agent_config_dir = "";
  trust_agent_aik_pem_file = "";
  trust_agent_user = "";
  aas_base_url = "";
  cms_base_url = "";
  skip_flavor_signature_verification = false;
  log_level = 0;
  log_max_length = pos 0;
  config_complete = true;
  log_enable_stdout = false;
}

-- A daemon in which the given map is loaded.
abbrev pub daemon : ImageVmAssociations → State
daemon m = record {
  trace = [];
  associations = m;
  image_key_id = [];
  handlers = [];
  config = config;
}

pub calm-WrapsErrors : WrapsErrors calm
calm-WrapsErrors e m h = cc

marshal_entry-unmarshal :
    (uuid path : String) (count : ℤ) (text : Bytes)
    → marshal_entry uuid path count ≡ ok text
    → unmarshal text ≡ ((uuid, record { image_path = path; vm_count = count }) ∷ [], none)
marshal_entry-unmarshal uuid path (pos n) text h =
    grind (arith, eq_iff uuid "image", eq_iff path crypto_path)
marshal_entry-unmarshal uuid path (negsuc n) text h = cc

marshal-unmarshal :
    (m : ImageVmAssociations) (text : Bytes) → marshal m ≡ ok text → unmarshal text ≡ (m, none)
marshal-unmarshal [] text h = cc
marshal-unmarshal ((uuid, a) ∷ []) text h =
    marshal_entry-unmarshal uuid a.image_path a.vm_count text h
marshal-unmarshal (x ∷ y ∷ m) text h = cc

pub calm-KeepsFiles : KeepsFiles calm
calm-KeepsFiles = record {
  read_back = λ text t h. refl;
  unmarshal_entries = λ m text t u k h. rw (marshal-unmarshal m text h) refl;
  unmarshal_error = λ m text t u h. rw (marshal-unmarshal m text h) refl;
}
