-- ===== src/Keys/Creation.antt =====
-- common/key_creation.go: the creation of a binding or signing key in the TPM, and its file.
pub mod Secrets
pub mod Files
use workload_agent.Prelude.{String, ◌<>◌, Bool, true, false, not, ◌||◌, Option, none, some, [], ◌∷◌}
use workload_agent.Config.Setup.{save}
use workload_agent.Consts.{config_dir_path, binding_key_file_name, signing_key_file_name}
use workload_agent.Keys.Hex.{encode_hex}
use workload_agent.Types.{
  Err, CertifiedKey, Configuration, KeyUsage, binding, signing, other, StatResult, found, missing,
  unreadable,
}
use workload_agent.World.{
  Env, get_random_bytes, new_tpm_provider, tpm_close, create_binding_key, create_signing_key,
  json_marshal_key, open_file, write_string, close, stat,
}
use workload_agent.World.Go.{
  Func, Go, ◌>>=◌, ◌>>◌, pure, return, panic, call, deferring, body, invoke, gets, modify, when,
  value_or, nil_or, discard,
}

-- `usage != tpmprovider.Binding && usage != tpmprovider.Signing`
abbrev pub is_unknown : KeyUsage → Bool
is_unknown binding = false
is_unknown signing = false
is_unknown (other n) = true

-- The secret of the new key replaces that of the old key with the same usage.
abbrev pub with_secret : KeyUsage → String → Configuration → Configuration
with_secret binding secret c = record c { binding_key_secret = secret }
with_secret signing secret c = record c { signing_key_secret = secret }
with_secret (other n) secret c = c

-- `filename`
abbrev pub key_file_name : KeyUsage → String
key_file_name binding = binding_key_file_name
key_file_name signing = signing_key_file_name
key_file_name (other n) = ""

-- The error of `os.Stat`.
abbrev pub stat_error : String → StatResult → Err
stat_error path (found info) = none
stat_error path missing = some ("stat " <> (path <> ": no such file or directory"))
stat_error path (unreadable e) = some e

module _ (env : Env) where
  -- The second switch of `createKey`.
  unfoldable pub create_with_secret :
      KeyUsage → Go (Option CertifiedKey × Err) (Option CertifiedKey × Err)
  create_with_secret binding = do
    secret ← gets λ s. s.config.binding_key_secret
    invoke env (create_binding_key secret)
  create_with_secret signing = do
    secret ← gets λ s. s.config.signing_key_secret
    invoke env (create_signing_key secret)
  create_with_secret (other n) = pure (none, none)

  -- `createKey`
  unfoldable pub create_key : KeyUsage → Func (Option CertifiedKey × Err)
  create_key usage = body do
    when (is_unknown usage) (
        return (
          none,
          some
              "common/key_creation:createKey()  Incorrect KeyUsage parameter - needs to be signing or binding",
        ))
    random ← invoke env (get_random_bytes 20)
    secret_bytes ← value_or random λ e. (none, some e)
    modify λ s. record s { config = with_secret usage (encode_hex secret_bytes) s.config }
    tpm ← invoke env new_tpm_provider
    nil_or tpm.1 λ e. (none, env.wrap (some e) "error while getting tpm provider")
    when (not tpm.0) panic
    deferring (discard env tpm_close) do
      created ← create_with_secret usage
      nil_or created.1 λ e. (none, some e)
      saved ← call (save env)
      nil_or saved λ e. (none, some e)
      return (created.0, none)

  -- The rest of `writeCertifiedKeyToDisk` for a key that is not nil. The file is closed only where
  -- both writes succeed.
  unfoldable pub write_key : CertifiedKey → String → Go Err Err
  write_key key file_path = do
    marshalled ← invoke env (json_marshal_key key)
    json ← value_or marshalled λ e.
        env.wrap (some e)
          "common/key_creation:writeCertifiedKeyToDisk() Error while marshalling tpm certified key to json"
    opened ← invoke env (open_file file_path true 0o600)
    nil_or opened λ e.
        some ("common/key_creation:writeCertifiedKeyToDisk() Could not create file Error:" <> e)
    wrote ← invoke env (write_string file_path json)
    nil_or wrote
        λ e. env.wrap (some e) "common/key_creation:writeCertifiedKeyToDisk() Failed to write json"
    ended ← invoke env (write_string file_path (b'\n' ∷ []))
    nil_or ended λ e.
        env.wrap (some e)
          "common/key_creation:writeCertifiedKeyToDisk() Failed to write end of data"
    deferring (discard env (close file_path)) (return none)

  -- `writeCertifiedKeyToDisk`
  unfoldable pub write_certified_key_to_disk : Option CertifiedKey → String → Func Err
  write_certified_key_to_disk none file_path =
      body
        (return (some "common/key_creation:writeCertifiedKeyToDisk() certifiedKey struct is empty"))
  write_certified_key_to_disk (some key) file_path = body (write_key key file_path)

  -- The rest of `GenerateKey` after `createKey`.
  unfoldable pub written_after : KeyUsage → Option CertifiedKey × Err → Go Err Err
  written_after usage created = do
    nil_or created.1 λ e.
        env.wrap (some e)
          "common/key_creation:GenerateKey() Error while creating binding/signing key"
    let file_path = config_dir_path <> key_file_name usage
    written ← call (write_certified_key_to_disk created.0 file_path)
    nil_or written λ e.
        env.wrap (some e)
          ("common/key_creation:GenerateKey() Error while writing key to the file " <> file_path)
    return none

  -- `GenerateKey`, on whether the factory is not nil.
  unfoldable pub generate_key : KeyUsage → Bool → Func Err
  generate_key usage has_factory = body do
    when (not has_factory || is_unknown usage) (
        return (
          some
            "common/key_creation:GenerateKey() Certified key or connection to TPM library failed"))
    created ← call (create_key usage)
    written_after usage created

  -- `ValidateKey`. Where `os.Stat` gives no error the file info is not nil, so its test never holds.
  unfoldable pub validate_key : KeyUsage → Func Err
  validate_key usage = body do
    let file_path = config_dir_path <> key_file_name usage
    info ← invoke env (stat file_path)
    nil_or (stat_error file_path info) λ e.
        env.wrap (some e) ("common/key_creation:ValidateKey() Could not find file " <> file_path)
    return none
