-- ===== src/Config.antt =====
-- config/config.go: the key files in the configuration directory.
pub mod Setup
pub mod Log
use workload_agent.Prelude.{String, ◌<>◌, Bool, true, false, none, some, []}
use workload_agent.Consts.{
  config_dir_path, signing_key_file_name, binding_key_file_name, signing_key_pem_file_name,
}
use workload_agent.Types.{Err, Bytes, Result, err, StatResult, found, missing, unreadable}
use workload_agent.World.{Env, stat, read_file}
use workload_agent.World.Go.{Func, ◌>>=◌, ◌>>◌, return, call, body, invoke, when, value_or}

-- `os.IsNotExist(err)` for the error of `os.Stat`.
abbrev pub is_not_exist : StatResult → Bool
is_not_exist (found info) = false
is_not_exist missing = true
is_not_exist (unreadable e) = false

-- `err == nil` after `os.Stat`
abbrev pub exists : StatResult → Bool
exists (found info) = true
exists missing = false
exists (unreadable e) = false

module _ (env : Env) where
  -- `getFileContentFromConfigDir`
  unfoldable pub get_file_content_from_config_dir : String → Func (Result Bytes)
  get_file_content_from_config_dir file_name = body do
    let file_path = config_dir_path <> file_name
    info ← invoke env (stat file_path)
    when (is_not_exist info) (return (err ("File does not exist - " <> file_path)))
    contents ← invoke env (read_file file_path)
    return contents

  -- `GetSigningKeyFromFile`
  unfoldable pub get_signing_key_from_file : Func (Result Bytes)
  get_signing_key_from_file = get_file_content_from_config_dir signing_key_file_name

  -- `GetBindingKeyFromFile`
  unfoldable pub get_binding_key_from_file : Func (Result Bytes)
  get_binding_key_from_file = get_file_content_from_config_dir binding_key_file_name

  -- `GetSigningCertFromFile`
  unfoldable pub get_signing_cert_from_file : Func (Bytes × Err)
  get_signing_cert_from_file = body do
    contents ← call (get_file_content_from_config_dir signing_key_pem_file_name)
    f ← value_or contents λ e. (
      [],
      env.wrap (some e) (
          "config/config:GetSigningCertFromFile() Error while getting contents of File :"
          <> signing_key_pem_file_name),
    )
    return (f, none)
