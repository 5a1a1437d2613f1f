-- ===== src/Tpm.antt =====
-- util/util.go: the TPM connection, and the key that it unwraps.
pub mod Connection
use workload_agent.Prelude.{◌<>◌, Bool, false, not, none, some, [], is_empty}
use workload_agent.Consts.{config_dir_path, binding_key_file_name}
use workload_agent.Types.{Err, Bytes}
use workload_agent.World.{
  Env, new_tpm_factory, new_tpm_provider, tpm_close, tpm_unbind, read_file,
  json_unmarshal_certified_key,
}
use workload_agent.World.Go.{
  Func, ◌>>=◌, ◌>>◌, return, panic, call, deferring, body, invoke, gets, when, value_or, nil_or,
  discard,
}

module _ (env : Env) where
  -- `util.GetTpmInstance`: whether the provider is not nil, and the error. The error of
  -- `NewTpmProvider` is dropped.
  unfoldable pub get_tpm_instance : Func (Bool × Err)
  get_tpm_instance = body do
    factory_err ← invoke env new_tpm_factory
    nil_or factory_err
        λ e. (false, env.wrap (some e) "util/util:GetTpmInstance() Could not create TPM Factory ")
    vm_start_tpm ← invoke env new_tpm_provider
    return (vm_start_tpm.0, none)

  -- `util.UnwrapKey`. The method value of `defer t.Close()` panics on a nil provider.
  unfoldable pub unwrap_key : Bytes → Func (Bytes × Err)
  unwrap_key tpm_wrapped_key = body do
    when (is_empty tpm_wrapped_key)
        (return ([], some "util/util:UnwrapKey() tpm wrapped key is empty"))
    t ← call get_tpm_instance
    when (not t.0) panic
    deferring (discard env tpm_close) do
      nil_or t.1 λ e.
          ([], env.wrap (some e) "util/util:UnwrapKey() Could not establish connection to TPM ")
      binding_key_cert ← invoke env (read_file (config_dir_path <> binding_key_file_name))
      cert ←
          value_or binding_key_cert
            λ e. ([], some "util/util:UnwrapKey() Error while reading the binding key certificate")
      unmarshalled ← invoke env (json_unmarshal_certified_key cert)
      certified_key ← value_or unmarshalled λ e. (
        [],
        some
            "util/util:UnwrapKey() Error unmarshalling the binding key file contents to TPM CertifiedKey object",
      )
      secret ← gets λ s. s.config.binding_key_secret
      unbound ← invoke env (tpm_unbind certified_key secret tpm_wrapped_key)
      key ← value_or unbound λ e.
          ([], env.wrap (some e) "util/util:UnwrapKey() error while unbinding the tpm wrapped key ")
      return (key, none)
