-- ===== src/Setup/RegisterSigningKey.antt =====
-- setup/register_signing_key.go: the task that registers the signing key.
use workload_agent.Prelude.{String, ◌<>◌, List, Bool, not, none, some, is_some}
use workload_agent.Clients.Hvs.{certify_host_signing_key}
use workload_agent.Config.{get_signing_key_from_file, is_not_exist}
use workload_agent.Consts.{config_dir_path, signing_key_pem_file_name, register_signing_key_command}
use workload_agent.Keys.Registration.{create_request, write_key_cert_to_disk}
use workload_agent.Setup.{setup_incomplete}
use workload_agent.Types.{Err}
use workload_agent.World.{Env, parse_force, stat}
use workload_agent.World.Go.{
  some_or_panic, Func, Go, ◌>>=◌, ◌>>◌, return, call, body, invoke, gets, when, value_or, nil_or,
}

abbrev pub key_cert_path : String
key_cert_path = config_dir_path <> signing_key_pem_file_name

module _ (env : Env) where
  -- `Validate`
  unfoldable pub validate : Func Err
  validate = body do
    info ← invoke env (stat key_cert_path)
    when (is_not_exist info) (
        return (
          some "setup/register_signing_key:Validate() Signing key certificate file does not exist"))
    return none

  -- `Validate` is asked only where the task is not forced.
  unfoldable pub skip_if_valid : Bool → Go Err (Unit {0})
  skip_if_valid force =
      when (not force) do invalid ← call validate; when (not (is_some invalid)) (return none)

  -- `Run`
  unfoldable pub run : List String → Func Err
  run flags = body do
    parsed ← invoke env (parse_force register_signing_key_command flags)
    force ←
        value_or parsed
          λ e. env.wrap (some e) "setup/register_signing_key:Run(): Unable to parse flags"
    complete ← gets λ s. s.config.config_complete
    when (not complete) (return (some setup_incomplete))
    skip_if_valid force
    key_file ← call (get_signing_key_from_file env)
    key ← value_or key_file λ e.
        env.wrap (some e) "setup/register_signing_key:Run() error reading signing key from  file "
    request ← call (create_request env key)
    nil_or request.1
        λ e. env.wrap (some e) "setup/register_signing_key:Run() error registering signing key "
    registered ← call (certify_host_signing_key env request.0)
    nil_or registered.1 λ e.
        env.wrap (some e)
          "setup/register_signing_key:Run() error while certify host signing key from hvs"
    certificate ← some_or_panic registered.0
    written ← call (write_key_cert_to_disk env key_cert_path certificate)
    nil_or written
        λ e. some "setup/register_signing_key:Run() error writing signing key certificate to file"
    return none
