-- ===== src/Setup/RegisterBindingKey.antt =====
-- setup/register_binding_key.go: the task that registers the binding key.
use workload_agent.Prelude.{String, ◌<>◌, List, Bool, not, none, some, is_some, str_eq}
use workload_agent.Clients.Hvs.{certify_host_binding_key}
use workload_agent.Config.{get_binding_key_from_file, is_not_exist, exists}
use workload_agent.Consts.{config_dir_path, binding_key_pem_file_name, register_binding_key_command}
use workload_agent.Keys.Registration.{create_request, write_key_cert_to_disk}
use workload_agent.Setup.{setup_incomplete}
use workload_agent.Types.{Err}
use workload_agent.World.{Env, parse_force, stat, user_lookup, chown}
use workload_agent.World.Go.{
  some_or_panic, Func, Go, ◌>>=◌, ◌>>◌, return, call, body, invoke, gets, when, value_or, nil_or,
}

abbrev pub key_cert_path : String
key_cert_path = config_dir_path <> binding_key_pem_file_name

module _ (env : Env) where
  -- `Validate`
  unfoldable pub validate : Func Err
  validate = body do
    info ← invoke env (stat key_cert_path)
    when (is_not_exist info) (
        return (
          some "setup/register_binding_key:Validate() binding key certificate file does not exist"))
    return none

  -- `Validate` is asked only where the task is not forced.
  unfoldable pub skip_if_valid : Bool → Go Err (Unit {0})
  skip_if_valid force =
      when (not force) do invalid ← call validate; when (not (is_some invalid)) (return none)

  -- `setBindingKeyPemFileOwner`
  unfoldable pub set_binding_key_pem_file_owner : Func Err
  set_binding_key_pem_file_owner = body do
    name ← gets λ s. s.config.trust_agent_user
    when (str_eq name "") (
        return (
          some
            "setup/register_binding_key:setBindingKeyPemFileOwner() trust agent user name cannot be empty in configuration"))
    looked_up ← invoke env (user_lookup name)
    usr ← value_or looked_up λ e. env.wrap (some e) (
        "setup/register_binding_key:setBindingKeyPemFileOwner() could not lookup up user id of trust agent user : "
        <> name)
    chowned ← invoke env (chown key_cert_path (env.atoi usr.uid) (env.atoi usr.gid))
    nil_or chowned λ e. env.wrap (some e) (
        "setup/register_binding_key:setBindingKeyPemFileOwner() Could not set permission for File "
        <> key_cert_path)
    return none

  -- `Run`
  unfoldable pub run : List String → Func Err
  run flags = body do
    parsed ← invoke env (parse_force register_binding_key_command flags)
    force ←
        value_or parsed
          λ e. env.wrap (some e) "setup/register_binding_key:Run() Unable to parse flags"
    complete ← gets λ s. s.config.config_complete
    when (not complete) (return (some setup_incomplete))
    skip_if_valid force
    key_file ← call (get_binding_key_from_file env)
    key ← value_or key_file λ e.
        env.wrap (some e) "setup/register_binding_key:Run() error reading binding key from  file. "
    request ← call (create_request env key)
    nil_or request.1
        λ e. env.wrap (some e) "setup/register_binding_key:Run() error registering binding key. "
    registered ← call (certify_host_binding_key env request.0)
    nil_or registered.1 λ e.
        env.wrap (some e)
          "setup/register_binding_key:Run() error while certifying host binding key with hvs"
    certificate ← some_or_panic registered.0
    written ← call (write_key_cert_to_disk env key_cert_path certificate)
    nil_or written
        λ e. some "setup/register_binding_key:Run() error writing binding key certificate to file"
    container ← invoke env (stat "/.container-env")
    when (exists container) (return none)
    owned ← call set_binding_key_pem_file_owner
    return owned
