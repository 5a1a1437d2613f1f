-- ===== src/Footprint/Setup.antt =====
-- What the setup tasks touch (setup/, common/, clients/hvs_client.go).
pub mod Tasks
use workload_agent.Prelude.{String, ◌<>◌, ◌++◌, List, [], ◌∷◌, Bool, true, ◌≡◌, Option, none, some}
use workload_agent.Clients.Hvs.{
  require_token, certify_key, certify_host_signing_key, certify_host_binding_key,
}
use workload_agent.Config.{get_file_content_from_config_dir, get_binding_key_from_file}
use workload_agent.Config.Setup.{config_file_path, create_if_absent, save}
use workload_agent.Consts.{
  config_dir_path, binding_key_file_name, signing_key_file_name, pem_certificate_header,
}
use workload_agent.Footprint.Services.{IsHarmless, discard-Emitted, signing_key-Emitted}
use workload_agent.Keys.Creation.{
  create_with_secret, create_key, write_key, write_certified_key_to_disk, written_after,
  generate_key, validate_key, key_file_name,
}
use workload_agent.Keys.Registration.{create_request, write_key_cert_to_disk}
use workload_agent.Setup
use workload_agent.Setup.RegisterBindingKey.{set_binding_key_pem_file_owner}
use workload_agent.Setup.UpdateServiceConfig.{is_one_of, take_account, take_options}
use workload_agent.Types.{
  Bytes, Result, CertifiedKey, RegisterKeyInfo, KeyUsage, ok, err, binding, signing, other,
  OpenResult, opened, absent, denied,
}
use workload_agent.World.{
  Env, Call, open_file, open_existing, yaml_encode_config, write_string, pem_encode, chown,
  create_binding_key, create_signing_key,
}
use workload_agent.World.Go.{some_or_panic}
use workload_agent.World.Keeps.{
  Keeps, Emitted, Emits, Keeps-Emits, Keeps-body, Keeps-bind, Keeps-gets, Emitted-invoke,
  Emitted-modify, keeps_rules,
}

abbrev pub key_files : List String
key_files =
    (config_dir_path <> binding_key_file_name) ∷ (config_dir_path <> signing_key_file_name) ∷ []

abbrev pub certificate_files : List String
certificate_files =
    Setup.RegisterBindingKey.key_cert_path ∷ Setup.RegisterSigningKey.key_cert_path ∷ []

-- The calls that a setup task may make: it creates the configuration file, the two key files and
-- the two certificate files alone, all with mode 0600, writes keys to the key files, certificates
-- to the certificate files and the configuration to its file, and gives away the binding key's
-- certificate alone.
abbrev pub MaySetup : Call → Type 0
MaySetup (open_file p truncates mode) =
    (is_one_of p (config_file_path ∷ (key_files ++ certificate_files)) ≡ true) × (mode ≡ 0o600)
MaySetup (write_string p text) = is_one_of p key_files ≡ true
MaySetup (pem_encode p kind text) =
    (is_one_of p certificate_files ≡ true) × (kind ≡ pem_certificate_header)
MaySetup (chown p uid gid) = p ≡ Setup.RegisterBindingKey.key_cert_path
MaySetup (open_existing p) = p ≡ config_file_path
MaySetup (yaml_encode_config p c) = p ≡ config_file_path
MaySetup c = IsHarmless c

pub safe : (c : Call) → IsHarmless c → MaySetup c
safe (open_file p truncates mode) h = absurd h
safe (write_string p text) h = absurd h
safe (pem_encode p kind text) h = absurd h
safe (chown p uid gid) h = absurd h
safe (open_existing p) h = absurd h
safe (yaml_encode_config p c) h = absurd h
safe _ h = h

module _ (env : Env) (t : List Call) where
  pub ruleset rules = (keeps_rules, Emitted-invoke, Emitted-modify, discard-Emitted, safe)

  create_if_absent-Emitted :
      (file : OpenResult) → Keeps (Emitted MaySetup t) (create_if_absent env file)
  unfolding create_if_absent
  create_if_absent-Emitted opened = search rules depth 40
  create_if_absent-Emitted absent = search rules depth 40
  create_if_absent-Emitted (denied e) = search rules depth 40

  pub save-Emitted : Keeps (Emitted MaySetup t) (save env)
  unfolding save
  save-Emitted = search (rules, create_if_absent-Emitted) depth 40

  create_with_secret-Emitted :
      (usage : KeyUsage) → Keeps (Emitted MaySetup t) (create_with_secret env usage)
  unfolding create_with_secret
  create_with_secret-Emitted binding =
      Keeps-bind _ _ (Keeps-gets _) λ secret. Emitted-invoke env (create_binding_key secret) tt
  create_with_secret-Emitted signing =
      Keeps-bind _ _ (Keeps-gets _) λ secret. Emitted-invoke env (create_signing_key secret) tt
  create_with_secret-Emitted (other n) = search rules depth 40

  create_key-Emitted : (usage : KeyUsage) → Keeps (Emitted MaySetup t) (create_key env usage)
  unfolding create_key
  create_key-Emitted usage =
      search (rules, create_with_secret-Emitted, save-Emitted) depth 60 fits 3000

  write-Emitted :
      (key : Option CertifiedKey) (path : String)
      → is_one_of path key_files ≡ true
      → MaySetup (open_file path true 0o600)
      → Keeps (Emitted MaySetup t) (write_certified_key_to_disk env key path)
  unfolding write_certified_key_to_disk write_key
  write-Emitted none path is_key opens = search rules depth 40
  write-Emitted (some key) path is_key opens = search rules depth 40

  pub validate_key-Emitted :
      (usage : KeyUsage) → Keeps (Emitted MaySetup t) (validate_key env usage)
  unfolding validate_key
  validate_key-Emitted usage = search rules depth 40

  pub generate_key-Emitted :
      (usage : KeyUsage) (has_factory : Bool)
      → is_one_of (config_dir_path <> key_file_name usage) key_files ≡ true
      → MaySetup (open_file (config_dir_path <> key_file_name usage) true 0o600)
      → Keeps (Emitted MaySetup t) (generate_key env usage has_factory)
  unfolding generate_key written_after
  generate_key-Emitted usage has_factory is_key opens =
      search (rules, create_key-Emitted, write-Emitted) depth 60 fits 3000

  token-Emitted : (token : Result String) → Keeps (Emitted MaySetup t) (require_token env token)
  unfolding require_token
  token-Emitted (ok token) = search rules depth 40
  token-Emitted (err e) = search rules depth 40

  certify-Emitted :
      (key : Option RegisterKeyInfo) (is_signing : Bool)
      → Keeps (Emitted MaySetup t) (certify_key env key is_signing)
  unfolding certify_key
  certify-Emitted key is_signing = search (rules, token-Emitted) depth 60

  pub signing-Emitted :
      (key : Option RegisterKeyInfo) → Keeps (Emitted MaySetup t) (certify_host_signing_key env key)
  unfolding certify_host_signing_key
  signing-Emitted key = search (rules, certify-Emitted) depth 60

  pub binding-Emitted :
      (key : Option RegisterKeyInfo) → Keeps (Emitted MaySetup t) (certify_host_binding_key env key)
  unfolding certify_host_binding_key
  binding-Emitted key = search (rules, certify-Emitted) depth 60

  pub request-Emitted : (key : Bytes) → Keeps (Emitted MaySetup t) (create_request env key)
  unfolding create_request
  request-Emitted key = search rules depth 60 fits 3000

  pub certificate-Emitted :
      (path : String) (certificate : Bytes)
      → MaySetup (open_file path true 0o600)
      → is_one_of path certificate_files ≡ true
      → Keeps (Emitted MaySetup t) (write_key_cert_to_disk env path certificate)
  unfolding write_key_cert_to_disk
  certificate-Emitted path certificate opens is_certificate = search rules depth 40

  pub binding_file-Emitted : Keeps (Emitted MaySetup t) (get_binding_key_from_file env)
  unfolding get_binding_key_from_file get_file_content_from_config_dir
  binding_file-Emitted = search rules depth 40

  pub owner-Emitted : Keeps (Emitted MaySetup t) (set_binding_key_pem_file_owner env)
  unfolding set_binding_key_pem_file_owner
  owner-Emitted = search rules depth 40

  pub account-Emitted : Keeps (Emitted MaySetup t) (take_account env)
  unfolding take_account
  account-Emitted = Keeps-bind _ _ (search rules depth 20) λ url.
      Keeps-bind _ _ (search rules depth 20) λ old_url.
        Keeps-bind _ _ (search rules depth 20)
          λ u. Keeps-bind _ _ (search rules depth 20) λ v. search rules depth 60 fits 3000

  pub options-Emitted : Keeps (Emitted MaySetup t) (take_options env)
  unfolding take_options
  options-Emitted = search rules depth 60 fits 3000
