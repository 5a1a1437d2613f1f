-- ===== src/Setup/UpdateServiceConfig.antt =====
-- setup/update_service_config.go: the task that takes the service's settings from the environment.
pub mod Settings
use workload_agent.Prelude.{
  String, ◌<>◌, List, [], ◌∷◌, Bool, true, false, not, ◌&&◌, ◌||◌, ◌==◌, ltb, Option, none, some,
  is_some, str_eq, if◌then◌else◌,
}
use workload_agent.Prelude.Int.{ℤ, pos, negsuc, is_zero}
use workload_agent.Config.Setup.{error_of, chosen, is_given, is_undefined, save}
use workload_agent.Consts.{
  wls_api_url_env, wla_username_env, wla_password_env, skip_flavor_signature_verification_env,
  log_entry_maxlength_env, enable_console_log_env, update_service_config_command,
  min_log_entry_maxlength, default_log_entry_maxlength,
}
use workload_agent.Types.{Err, Result, ok, err}
use workload_agent.World.{Env, getenv_string, getenv_secret, getenv_int, parse_force}
use workload_agent.World.Go.{
  Func, Go, ◌>>=◌, ◌>>◌, return, call, body, invoke, gets, modify, when, value_or,
}

abbrev pub is_one_of : String → List String → Bool
is_one_of text [] = false
is_one_of text (word ∷ words) = str_eq text word || is_one_of text words

-- `strconv.ParseBool`
unfoldable pub parse_bool : String → Option Bool
parse_bool text =
    if is_one_of text ("1" ∷ "t" ∷ "T" ∷ "TRUE" ∷ "true" ∷ "True" ∷ [])
    then some true
    else if is_one_of text ("0" ∷ "f" ∷ "F" ∷ "FALSE" ∷ "false" ∷ "False" ∷ [])
    then some false
    else none

abbrev pub or_else : Bool → Option Bool → Bool
or_else default none = default
or_else default (some b) = b

-- `SkipFlavorSignatureVerification`: true unless the environment says another value that parses.
abbrev pub skip_setting : Result String → Bool
skip_setting (ok text) = or_else true (parse_bool text)
skip_setting (err e) = true

-- `LogMaxLength`
abbrev pub default_length : ℤ → ℤ
default_length old = if is_zero old then pos default_log_entry_maxlength else old

abbrev pub max_length_setting : Result ℤ → ℤ → ℤ
max_length_setting (ok (pos n)) old =
    if ltb n min_log_entry_maxlength then default_length old else pos n
max_length_setting (ok (negsuc n)) old = default_length old
max_length_setting (err e) old = default_length old

-- `LogEnableStdout`
abbrev pub stdout_setting : Result String → Bool
stdout_setting (ok text) = if str_eq text "" then false else or_else false (parse_bool text)
stdout_setting (err e) = false

module _ (env : Env) where
  -- `Validate`
  unfoldable pub validate : Func Err
  validate = body do
    c ← gets λ s. s.config
    when (str_eq c.wla_api_username "")
        (return (some "setup/update_service_config:Validate() WLA User is not set"))
    when (str_eq c.wla_api_password "")
        (return (some "setup/update_service_config:Validate() WLA Password is not set "))
    return none

  -- `Validate` is asked only where the task is not forced.
  unfoldable pub skip_if_valid : Bool → Go Err (Unit {0})
  skip_if_valid force =
      when (not force) do invalid ← call validate; when (not (is_some invalid)) (return none)

  -- The settings that must be there. The user's name may be white space.
  unfoldable pub take_account : Go Err (Unit {0})
  take_account = do
    url ← invoke env (getenv_string wls_api_url_env "Workload Service URL")
    old_url ← gets λ s. s.config.wls_api_url
    when (is_undefined url old_url) (
        return (
          env.wrap (error_of url)
            (wls_api_url_env <> " is not defined in environment or configuration file")))
    modify λ s. record s { config = record s.config { wls_api_url = chosen url old_url } }
    user ← invoke env (getenv_string wla_username_env "WLA Service Username")
    old_user ← gets λ s. s.config.wla_api_username
    when (not (is_given user) && str_eq old_user "") (
        return (
          env.wrap (error_of user)
            (wla_username_env <> " is not defined in environment or configuration file")))
    modify λ s. record s { config = record s.config { wla_api_username = chosen user old_user } }
    password ← invoke env (getenv_secret wla_password_env "WLA Service Password")
    old_password ← gets λ s. s.config.wla_api_password
    -- the format has no verb for the name of the variable
    when (is_undefined password old_password) (
        return (
          env.wrap (error_of password) (
            " is not defined in environment or configuration file%!(EXTRA string="
            <> (wla_password_env <> ")"))))
    modify λ s. record s {
      config = record s.config { wla_api_password = chosen password old_password };
    }

  -- The settings with defaults.
  unfoldable pub take_options : Go Err (Unit {0})
  take_options = do
    skip ←
        invoke env (
          getenv_string skip_flavor_signature_verification_env "Skip flavor signature verification")
    modify λ s. record s {
      config = record s.config { skip_flavor_signature_verification = skip_setting skip };
    }
    length ← invoke env (getenv_int log_entry_maxlength_env "Maximum length of each entry in a log")
    modify λ s. record s {
      config = record s.config {
        log_max_length = max_length_setting length s.config.log_max_length;
      };
    }
    modify λ s. record s { config = record s.config { log_enable_stdout = false } }
    stdout ←
        invoke env (getenv_string enable_console_log_env "Workload Agent Enable standard output")
    modify λ s. record s { config = record s.config { log_enable_stdout = stdout_setting stdout } }

  -- `Run`
  unfoldable pub run : List String → Func Err
  run flags = body do
    parsed ← invoke env (parse_force update_service_config_command flags)
    force ← value_or parsed λ e. some "update_service_config setup: Unable to parse flags"
    skip_if_valid force
    take_account
    take_options
    saved ← call (save env)
    return saved
