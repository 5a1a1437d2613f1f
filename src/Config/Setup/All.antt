-- ===== src/Config/Setup/All.antt =====
-- `SaveConfiguration` for all setup tasks saves a complete configuration (config/config.go).
use workload_agent.Prelude.{
  ℕ, String, Bool-cases, inl, inr, ◌⊎◌, true, ◌≡◌, ◌==◌, refl, some, none, List,
}
use workload_agent.Association.Persistence.{WrapsErrors}
use workload_agent.Config.Setup.{
  is_undefined, check_cms_config, check_hvs_config, check_trust_agent, log_level_of, check_all,
  save_configuration,
}
use workload_agent.Config.Setup.Complete.{
  IsDefined, HasCa, chosen-IsDefined, string-fails, cms-Checks, hvs-Checks, Finishes-save,
}
use workload_agent.Consts.{log_level_env_var, ta_aik_pem_file_name, aas_url, setup_all_command}
use workload_agent.Types.{Err, Result, ok, err, Configuration}
use workload_agent.World.{Env, State, Call, getenv_string, filepath_join, parse_level}
use workload_agent.World.Go.{returned, Go, ◌>>=◌, ◌>>◌, call, modify, nil_or}
use workload_agent.World.Keeps.{keeps_rules}
use workload_agent.Config.Setup.Steps.{
  Step, Goes-when, Step-bind, Step-pure, Step-invoke, Step-gets, Step-modify, Step-checked,
  EmptySince, same, called, settled, empty-invoke, empty-modify,
}

-- The settings that are defined after each check.
abbrev HasAas : Configuration → Type 0
HasAas c = IsDefined c.aas_base_url

abbrev HasCms : Configuration → Type 0
HasCms c = HasAas c × HasCa c

abbrev HasHvs : Configuration → Type 0
HasHvs c = HasCms c × IsDefined c.hvs_api_url

abbrev pub IsComplete : Configuration → Type 0
IsComplete c = HasHvs c × (c.config_complete ≡ true)

abbrev Anything : Configuration → Type 0
Anything c = Unit

module _ (env : Env) where
  module _ (t : List Call) where
    ruleset rules = (keeps_rules, empty-invoke, empty-modify)

    level-Step :
        (name : Result String) (old : ℕ) → Step env t HasAas HasAas (log_level_of env name old)
    unfolding log_level_of
    level-Step (err e) old = Step-pure env t env.info_level
    level-Step (ok name) old = elim (Bool-cases (old == 0)) [
      | inl e ↦
          rw e
            (Step-bind env t _ _ (Step-invoke env t (parse_level name)) λ parsed. Step-pure env t _)
      | inr d ↦ rw d (Step-pure env t old)
    ]

    module _ (wraps : WrapsErrors env) where
      trust_agent-Step : Step env t Anything HasAas (check_trust_agent env)
      unfolding check_trust_agent ◌>>=◌
      trust_agent-Step = record {
        at = λ s ext h.
            let c = getenv_string aas_url "AAS API URL" in
            let r = env.answer c s.trace in
            Goes-when env t HasAas (is_undefined r s.config.aas_base_url) _ _ _
              (string-fails env t wraps _ _ _ _ _ refl ext)
              λ d. (
                called _ (called _ (called c ext)),
                inl (chosen-IsDefined r s.config.aas_base_url d),
              );
        keeps = search rules depth 60;
      }

      -- The end of the case `all`.
      mark_complete : Go Err (Unit {0})
      mark_complete = modify λ s. record s { config = record s.config { config_complete = true } }

      mark_complete-Step : Step env t HasHvs IsComplete mark_complete
      unfolding mark_complete
      mark_complete-Step = Step-modify env t _ (λ s. refl) λ s h. (h, refl)

      check_hvs_last : Go Err (Unit {0})
      check_hvs_last = do hvs ← call (check_hvs_config env); nil_or hvs λ e. some e; mark_complete

      check_hvs_last-Step : Step env t HasCms IsComplete check_hvs_last
      unfolding check_hvs_last
      check_hvs_last-Step =
          Step-checked env t mark_complete mark_complete-Step HasCms (check_hvs_config env)
            (hvs-Checks env t wraps HasCms λ c url h. h)

      all-Step : Step env t Anything IsComplete (check_all env)
      unfolding check_all check_hvs_last mark_complete
      all-Step = Step-bind env t (check_trust_agent env) _ trust_agent-Step λ u.
          Step-bind env t _ _ (Step-invoke env t (getenv_string log_level_env_var "Logging Level"))
            λ name. Step-bind env t _ _ (Step-gets env t λ s. s.config.log_level) λ old.
              Step-bind env t _ _ (level-Step name old) λ level.
                Step-bind env t {Q = HasAas} _ _
                  (Step-modify env t
                    (λ s. record s { config = record s.config { log_level = level } }) (λ s. refl)
                    λ s h. h)
                  λ u.
                    Step-bind env t _ _ (Step-gets env t λ s. s.config.trust_agent_config_dir)
                      λ dir.
                        Step-bind env t _ _
                          (Step-invoke env t (filepath_join dir ta_aik_pem_file_name))
                          λ pem.
                            Step-bind env t {Q = HasAas} _ _
                              (Step-modify env t
                                (λ s. record s {
                                  config = record s.config { trust_agent_aik_pem_file = pem };
                                })
                                (λ s. refl) λ s h. h)
                              λ u.
                                Step-checked env t check_hvs_last check_hvs_last-Step HasAas
                                  (check_cms_config env)
                                  (cms-Checks env t wraps HasAas λ c url digest h. h)

  -- Where wrapping an error gives an error, `SaveConfiguration` for all tasks that returns no error
  -- has the URLs of the AAS, the CMS and the HVS and the digest of the CMS's certificate in the
  -- configuration, which is marked complete; or the environment gave one of the variables that setup
  -- tasks require as empty, without an error.
  pub save_configuration-IsComplete :
      (s : State)
      → WrapsErrors env
      → let saved = save_configuration env setup_all_command s in
        saved.0 ≡ returned none → IsComplete saved.1.config ⊎ EmptySince env s.trace saved.1.trace
  unfolding save_configuration ◌>>=◌
  save_configuration-IsComplete s wraps h =
      settled env s.trace IsComplete _
        (Finishes-save env s.trace IsComplete (check_all env s)
          ((all-Step s.trace wraps).at s same tt))
        h
