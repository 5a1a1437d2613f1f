-- ===== src/Footprint/Setup/Tasks.antt =====
-- What a run of each setup task touches (setup/).
use workload_agent.Prelude.{String, List, Bool}
use workload_agent.Footprint.Services.{signing_key-Emitted}
use workload_agent.Setup
use workload_agent.Setup.RegisterBindingKey.{set_binding_key_pem_file_owner}
use workload_agent.Setup.UpdateServiceConfig.{is_one_of, take_account, take_options}
use workload_agent.World.{Env, Call}
use workload_agent.World.Keeps.{Keeps, Emitted, Emits, Keeps-Emits, Keeps-body, Keeps-bind}
use workload_agent.Footprint.Setup.{
  MaySetup, rules, save-Emitted, save-Emitted, validate_key-Emitted, validate_key-Emitted,
  generate_key-Emitted, generate_key-Emitted, signing-Emitted, signing-Emitted, binding-Emitted,
  binding-Emitted, request-Emitted, request-Emitted, certificate-Emitted, certificate-Emitted,
  binding_file-Emitted, binding_file-Emitted, owner-Emitted, owner-Emitted, account-Emitted,
  account-Emitted, options-Emitted, options-Emitted,
}

module _ (env : Env) (t : List Call) where
  ruleset task_rules = (
    rules, validate_key-Emitted, generate_key-Emitted, signing-Emitted, binding-Emitted,
    request-Emitted, certificate-Emitted, binding_file-Emitted, signing_key-Emitted, owner-Emitted,
    account-Emitted, options-Emitted, save-Emitted,
  )

  signing_key_task-Emitted :
      (flags : List String) (has_factory : Bool)
      → Keeps (Emitted MaySetup t) (Setup.SigningKey.run env flags has_factory)
  unfolding Setup.SigningKey.run Setup.SigningKey.skip_if_valid Setup.SigningKey.validate
  signing_key_task-Emitted flags has_factory = search task_rules depth 60 fits 3000

  binding_key_task-Emitted :
      (flags : List String) (has_factory : Bool)
      → Keeps (Emitted MaySetup t) (Setup.BindingKey.run env flags has_factory)
  unfolding Setup.BindingKey.run Setup.BindingKey.skip_if_valid Setup.BindingKey.validate
  binding_key_task-Emitted flags has_factory = search task_rules depth 60 fits 3000

  register_signing-Emitted :
      (flags : List String) → Keeps (Emitted MaySetup t) (Setup.RegisterSigningKey.run env flags)
  unfolding Setup.RegisterSigningKey.run Setup.RegisterSigningKey.skip_if_valid
      Setup.RegisterSigningKey.validate
  register_signing-Emitted flags = search task_rules depth 60 fits 3000

  register_binding-Emitted :
      (flags : List String) → Keeps (Emitted MaySetup t) (Setup.RegisterBindingKey.run env flags)
  unfolding Setup.RegisterBindingKey.run Setup.RegisterBindingKey.skip_if_valid
      Setup.RegisterBindingKey.validate
  register_binding-Emitted flags = Keeps-body _ (
      Keeps-bind _ _ (search task_rules depth 20) λ parsed.
        Keeps-bind _ _ (search task_rules depth 20) λ force.
          Keeps-bind _ _ (search task_rules depth 20) λ complete.
            Keeps-bind _ _ (search task_rules depth 20) λ u.
              Keeps-bind _ _ (search task_rules depth 20) λ v.
                Keeps-bind _ _ (search task_rules depth 20)
                  λ key_file. search task_rules depth 60 fits 3000)

  settings-Emitted :
      (flags : List String) → Keeps (Emitted MaySetup t) (Setup.UpdateServiceConfig.run env flags)
  unfolding Setup.UpdateServiceConfig.run Setup.UpdateServiceConfig.skip_if_valid
      Setup.UpdateServiceConfig.validate
  settings-Emitted flags = search task_rules depth 60 fits 3000

-- A run of any of the agent's five setup tasks creates the configuration file, the two key files and
-- the two certificate files alone, all with mode 0600; it writes text only to the key files, PEM
-- blocks only to the certificate files and the encoded configuration only to the configuration
-- file; it changes the owner of the binding key's certificate alone, removes no file and runs no
-- command, however it ends.
pub setup-MaySetup :
    (env : Env) (flags : List String) (has_factory : Bool)
    → Emits MaySetup (Setup.SigningKey.run env flags has_factory)
      × Emits MaySetup (Setup.BindingKey.run env flags has_factory)
      × Emits MaySetup (Setup.RegisterSigningKey.run env flags)
      × Emits MaySetup (Setup.RegisterBindingKey.run env flags)
      × Emits MaySetup (Setup.UpdateServiceConfig.run env flags)
setup-MaySetup env flags has_factory = (
  Keeps-Emits _ (λ t. signing_key_task-Emitted env t flags has_factory),
  Keeps-Emits _ (λ t. binding_key_task-Emitted env t flags has_factory),
  Keeps-Emits _ (λ t. register_signing-Emitted env t flags),
  Keeps-Emits _ (λ t. register_binding-Emitted env t flags),
  Keeps-Emits _ (λ t. settings-Emitted env t flags),
)
