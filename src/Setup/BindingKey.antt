-- ===== src/Setup/BindingKey.antt =====
-- setup/create_binding_key.go: the task that creates the binding key.
use workload_agent.Prelude.{String, List, Bool, not, none, some, is_some}
use workload_agent.Consts.{create_binding_key_task}
use workload_agent.Keys.Creation.{generate_key, validate_key}
use workload_agent.Setup.{setup_incomplete}
use workload_agent.Types.{Err, binding}
use workload_agent.World.{Env, parse_force}
use workload_agent.World.Go.{
  Func, Go, ◌>>=◌, ◌>>◌, return, call, body, invoke, gets, when, value_or, nil_or,
}

module _ (env : Env) where
  -- `Validate`
  unfoldable pub validate : Func Err
  validate = body do
    invalid ← call (validate_key env binding)
    nil_or invalid λ e.
        env.wrap (some e) "setup/create_binding_key:Validate() Error while validating binding key"
    return none

  -- `Validate` is asked only where the task is not forced.
  unfoldable pub skip_if_valid : Bool → Go Err (Unit {0})
  skip_if_valid force =
      when (not force) do invalid ← call validate; when (not (is_some invalid)) (return none)

  -- `Run`, on the arguments and on whether the TPM factory is not nil.
  unfoldable pub run : List String → Bool → Func Err
  run flags has_factory = body do
    parsed ← invoke env (parse_force create_binding_key_task flags)
    force ←
        value_or parsed
          λ e. env.wrap (some e) "setup/create_binding_key:Run() Unable to parse flags"
    complete ← gets λ s. s.config.config_complete
    when (not complete) (return (some setup_incomplete))
    skip_if_valid force
    generated ← call (generate_key env binding has_factory)
    nil_or generated λ e.
        env.wrap (some e)
          "setup/create_binding_key:Run() Error while generating tpm certified binding key"
    return none
