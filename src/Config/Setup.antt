-- ===== src/Config/Setup.antt =====
-- config/config.go: the settings that a setup task takes from the environment, and the
-- configuration file.
pub mod Complete
pub mod Empty
pub mod Steps
pub mod All
use workload_agent.Prelude.{
  ℕ, String, ◌<>◌, Bool, true, false, not, ◌&&◌, ◌||◌, ◌==◌, Option, none, some, str_eq,
  if◌then◌else◌,
}
use workload_agent.Prelude.Strings.{trim_space}
use workload_agent.Consts.{
  config_dir_path, config_file_name, hvs_url_env, cms_tls_cert_digest_env, aas_url,
  cms_base_url_env, log_level_env_var, ta_config_dir_env_var, ta_user_name_env_var,
  ta_aik_pem_file_name, default_trustagent_user, default_trustagent_configuration,
  setup_all_command, download_root_ca_cert_command, register_signing_key_command,
  register_binding_key_command,
}
use workload_agent.Types.{
  Err, Bytes, Result, ok, err, Configuration, OpenResult, opened, absent, denied,
}
use workload_agent.World.{
  Env, getenv_string, filepath_join, parse_level, open_existing, open_read, open_file, close,
  read_file, yaml_encode_config, yaml_decode_config,
}
use workload_agent.World.Go.{
  Func, Go, ◌>>=◌, ◌>>◌, pure, return, call, deferring, body, invoke, gets, modify, when, nil_or,
  discard,
}

abbrev pub config_file_path : String
config_file_path = config_dir_path <> config_file_name

-- The error beside a result.
abbrev pub error_of {ℓ} : {A : Type ℓ} → Result A → Err
error_of (ok a) = none
error_of (err e) = some e

-- `if err == nil && value != "" { … = value }`: what a setting is after the environment is read.
abbrev pub chosen : Result String → String → String
chosen (ok value) old = if str_eq value "" then old else value
chosen (err e) old = old

-- `err == nil && value != ""`
abbrev pub is_given : Result String → Bool
is_given (ok value) = not (str_eq value "")
is_given (err e) = false

-- Neither the environment nor the configuration has the setting.
abbrev pub is_undefined : Result String → String → Bool
is_undefined from_env old = not (is_given from_env) && str_eq (trim_space old) ""

-- A setting with a default, for one that is undefined.
abbrev pub or_default : Result String → String → String → String
or_default from_env old default = if is_undefined from_env old then default else chosen from_env old

-- The level after a level was parsed.
abbrev parsed_or : ℕ → Result ℕ → ℕ
parsed_or level (ok n) = n
parsed_or level (err e) = level

module _ (env : Env) where
  -- `GetAikSecret`
  unfoldable pub get_aik_secret : Func (Result Bytes)
  get_aik_secret = body do
    aik_secret ← invoke env (read_file (default_trustagent_configuration <> "/aiksecretkey"))
    return aik_secret

  -- The answer of the first `OpenFile` of `Save`.
  unfoldable pub create_if_absent : OpenResult → Go Err (Unit {0})
  create_if_absent opened = pure tt
  create_if_absent absent = do
    created ← invoke env (open_file config_file_path true 0o600)
    nil_or created λ e. env.wrap (some e) "config/config:Save() Error in file creation"
  create_if_absent (denied e) = return (env.wrap (some e) "config/config:Save() I/O related error")

  -- `Save`
  unfoldable pub save : Func Err
  save = body do
    file ← invoke env (open_existing config_file_path)
    deferring (discard env (close config_file_path)) do
      create_if_absent file
      configuration ← gets λ s. s.config
      encoded ← invoke env (yaml_encode_config config_file_path configuration)
      return encoded

  -- `init`
  unfoldable pub load : Func (Unit {0})
  load = body do
    failure ← invoke env (open_read config_file_path)
    nil_or failure λ e. tt
    deferring (discard env (close config_file_path)) do
      configuration ← gets λ s. s.config
      decoded ← invoke env (yaml_decode_config configuration)
      modify λ s. record s { config = decoded.0 }

  -- `checkCmsConfig` of `SaveConfiguration`
  unfoldable pub check_cms_config : Func Err
  check_cms_config = body do
    base_url ← invoke env (getenv_string cms_base_url_env "CMS Base URL")
    old ← gets λ s. s.config.cms_base_url
    when (is_undefined base_url old) (
        return (
          env.wrap (error_of base_url)
            "CMS_BASE_URL is not defined in environment or configuration file"))
    modify λ s. record s { config = record s.config { cms_base_url = chosen base_url old } }
    digest ← invoke env (getenv_string cms_tls_cert_digest_env "CMS TLS certificate digest")
    old_digest ← gets λ s. s.config.cms_tls_cert_digest
    when (is_undefined digest old_digest) (
        return (
          env.wrap (error_of digest)
            "CMS_TLS_CERT_SHA384 is not defined in environment or configuration file"))
    modify λ s. record s {
      config = record s.config { cms_tls_cert_digest = chosen digest old_digest };
    }
    return none

  -- `checkHvsConfig` of `SaveConfiguration`
  unfoldable pub check_hvs_config : Func Err
  check_hvs_config = body do
    url ← invoke env (getenv_string hvs_url_env "Verification Service URL")
    old ← gets λ s. s.config.hvs_api_url
    when (is_undefined url old) (
        return
          (env.wrap (error_of url) "HVS_URL is not defined in environment or configuration file"))
    modify λ s. record s { config = record s.config { hvs_api_url = chosen url old } }
    return none

  -- The AAS URL and the trust agent's user and directory.
  unfoldable pub check_trust_agent : Go Err (Unit {0})
  check_trust_agent = do
    url ← invoke env (getenv_string aas_url "AAS API URL")
    old ← gets λ s. s.config.aas_base_url
    when (is_undefined url old) (
        return (
          env.wrap (error_of url)
            "AAS_API_URL is not defined in environment or configuration file"))
    modify λ s. record s { config = record s.config { aas_base_url = chosen url old } }
    user ← invoke env (getenv_string ta_user_name_env_var "Trust Agent User Name")
    modify λ s. record s {
      config = record s.config {
        trust_agent_user = or_default user s.config.trust_agent_user default_trustagent_user;
      };
    }
    dir ← invoke env (getenv_string ta_config_dir_env_var "Trust Agent Configuration Directory")
    modify λ s. record s {
      config = record s.config {
        trust_agent_config_dir =
            or_default dir s.config.trust_agent_config_dir default_trustagent_configuration;
      };
    }

  -- The log level, for what the environment says and the level before.
  unfoldable pub log_level_of : Result String → ℕ → Go Err ℕ
  log_level_of (err e) old = pure env.info_level
  log_level_of (ok name) old =
      if old == 0
      then (do parsed ← invoke env (parse_level name); pure (parsed_or env.info_level parsed))
      else pure old

  -- The case `all` of `SaveConfiguration`.
  unfoldable pub check_all : Go Err (Unit {0})
  check_all = do
    check_trust_agent
    level_name ← invoke env (getenv_string log_level_env_var "Logging Level")
    old ← gets λ s. s.config.log_level
    level ← log_level_of level_name old
    modify λ s. record s { config = record s.config { log_level = level } }
    dir ← gets λ s. s.config.trust_agent_config_dir
    pem_file ← invoke env (filepath_join dir ta_aik_pem_file_name)
    modify λ s. record s { config = record s.config { trust_agent_aik_pem_file = pem_file } }
    cms ← call check_cms_config
    nil_or cms λ e. some e
    hvs ← call check_hvs_config
    nil_or hvs λ e. some e
    modify λ s. record s { config = record s.config { config_complete = true } }

  -- `SaveConfiguration`
  unfoldable pub save_configuration : String → Func Err
  save_configuration task_name = body do
    when (str_eq task_name setup_all_command) check_all
    when (str_eq task_name download_root_ca_cert_command)
        do cms ← call check_cms_config; nil_or cms λ e. some e
    when
        (str_eq task_name register_binding_key_command
          || str_eq task_name register_signing_key_command)
        do hvs ← call check_hvs_config; nil_or hvs λ e. some e
    saved ← call save
    return saved
