-- ===== src/Setup/UpdateServiceConfig/Settings.antt =====
-- What a run of `update_service_config` leaves in the configuration
-- (setup/update_service_config.go).
use workload_agent.Prelude.{
  ℕ, zero, suc, String, true, false, not, ◌&&◌, ◌≤◌, ◌≡◌, ◌≢◌, ◌⊎◌, inl, inr, refl, none, List, ◌∷◌,
  str_eq, eq_iff, arith,
}
use workload_agent.Prelude.Int.{ℤ, pos, negsuc}
use workload_agent.Association.Persistence.{WrapsErrors}
use workload_agent.Config.Setup.{chosen, error_of, is_given, is_undefined, save}
use workload_agent.Config.Setup.Complete.{
  IsDefined, chosen-IsDefined, undefined_fails, string-fails, save-Keeps, save-WasEmpty,
  save-Extends,
}
use workload_agent.Config.Setup.Steps.{
  Extends, same, called, EmptySince, at_call, WasEmpty, Settled, Goes, Goes-when, Finishes-last,
  settled, empty-invoke, empty-modify, Extends-invoke, Extends-modify,
}
use workload_agent.Setup.UpdateServiceConfig.{
  default_length, max_length_setting, validate, skip_if_valid, take_account, take_options, run,
}
use workload_agent.Consts.{
  wls_api_url_env, wla_username_env, wla_password_env, update_service_config_command,
}
use workload_agent.Types.{Err, Result, ok, err, Configuration}
use workload_agent.World.{Env, State, Call, getenv_string, getenv_secret, parse_force}
use workload_agent.World.Go.{Func, returned, ◌>>=◌, ◌>>◌, body, call, return, invoke, modify}
use workload_agent.World.Keeps.{Keeps, keeps_rules}

default_length-bound :
    (old : ℤ)
    → ((n : ℕ) × (default_length old ≡ pos n) × (100 ≤ n))
      ⊎ ((default_length old ≡ old) × (old ≢ pos 0))
default_length-bound (pos zero) = inl (300, refl, omega arith)
default_length-bound (pos (suc n)) = inr (refl, λ e. cc)
default_length-bound (negsuc n) = inr (refl, λ e. cc)

-- The length of a log entry is at least 100, or is the length of before, which was not 0.
pub max_length_setting-bound :
    (r : Result ℤ) (old : ℤ)
    → ((n : ℕ) × (max_length_setting r old ≡ pos n) × (100 ≤ n))
      ⊎ ((max_length_setting r old ≡ old) × (old ≢ pos 0))
max_length_setting-bound (ok (pos n)) old = ground (arith, default_length-bound old)
max_length_setting-bound (ok (negsuc n)) old = default_length-bound old
max_length_setting-bound (err e) old = default_length-bound old

-- The settings without which the service cannot sign on.
abbrev pub HasAccount : Configuration → Type 0
HasAccount c = IsDefined c.wla_api_username × IsDefined c.wla_api_password

-- What the return of a missing setting's error tells.
missing_fails :
    (r : Result String) (old : String) (env : Env) (message : String)
    → WrapsErrors env
    → (not (is_given r) && str_eq old "") ≡ true
    → (r ≡ ok "") ⊎ (env.wrap (error_of r) message ≢ none)
missing_fails (ok value) old env message wraps h = inl (grind (arith, eq_iff value ""))
missing_fails (err e) old env message wraps h = inr (wraps e message)

given-IsDefined :
    (r : Result String) (old : String)
    → (not (is_given r) && str_eq old "") ≡ false
    → IsDefined (chosen r old)
given-IsDefined (ok value) old h = ground arith
given-IsDefined (err e) old h = h

-- The settings without which the service cannot reach the Workload Service.
abbrev pub HasService : Configuration → Type 0
HasService c = IsDefined c.wls_api_url × HasAccount c

module _ (env : Env) where
  validate-HasAccount :
      (s : State) → (validate env s).0 ≡ returned none → HasAccount (validate env s).1.config
  unfolding validate ◌>>=◌
  validate-HasAccount s h = ground arith

  HasAccount-validate : (s : State) → HasAccount s.config → (validate env s).0 ≡ returned none
  unfolding validate ◌>>=◌
  HasAccount-validate s h = ground arith

  module _ {ℓ} {R : Type ℓ} where
    service-invoke : (c : Call) → Keeps (λ s. HasService s.config) (invoke {R = R} env c)
    unfolding invoke
    service-invoke c = record { at = λ s h. h }

    service-modify :
        (f : State → State)
        → ((s : State) → HasService s.config → HasService (f s).config)
        → Keeps (λ s. HasService s.config) (modify {R = R} f)
    unfolding modify
    service-modify f keeps = record { at = keeps }

  options-HasService : Keeps (λ s. HasService s.config) (take_options env)
  unfolding take_options
  options-HasService = search (keeps_rules, service-invoke, service-modify) depth 40

  module _ (t : List Call) where
    ruleset rules = (keeps_rules, empty-invoke, empty-modify, Extends-invoke)

    options-WasEmpty : Keeps (WasEmpty env t) (take_options env)
    unfolding take_options
    options-WasEmpty = search rules depth 40

    options-Extends : Keeps (λ s. Extends t s.trace) (take_options env)
    unfolding take_options
    options-Extends = search (rules, Extends-modify) depth 40

    module _ (wraps : WrapsErrors env) where
      user-fails :
          (old message : String) (l : List Call)
          → let c = getenv_string wla_username_env "WLA Service Username" in
            Extends t l
            → (not (is_given (env.answer c l)) && str_eq old "") ≡ true
            → EmptySince env t (c ∷ l) ⊎ (env.wrap (error_of (env.answer c l)) message ≢ none)
      user-fails old message l ext u =
          let c = getenv_string wla_username_env "WLA Service Username" in
          elim (missing_fails (env.answer c l) old env message wraps u) [
            | inl e ↦ inl (at_call c (refl, e) ext)
            | inr fails ↦ inr fails
          ]

      password-fails :
          (old message : String) (l : List Call)
          → let c = getenv_secret wla_password_env "WLA Service Password" in
            Extends t l
            → is_undefined (env.answer c l) old ≡ true
            → EmptySince env t (c ∷ l) ⊎ (env.wrap (error_of (env.answer c l)) message ≢ none)
      password-fails old message l ext u =
          let c = getenv_secret wla_password_env "WLA Service Password" in
          elim (undefined_fails (env.answer c l) old env message wraps u) [
            | inl e ↦ inl (at_call c (refl, e) ext)
            | inr fails ↦ inr fails
          ]

      take_account-HasService :
          (s : State) → Extends t s.trace → Goes env t HasService (take_account env s)
      unfolding take_account ◌>>=◌
      take_account-HasService s ext =
          let a = getenv_string wls_api_url_env "Workload Service URL" in
          let url = env.answer a s.trace in
          let b = getenv_string wla_username_env "WLA Service Username" in
          let user = env.answer b (a ∷ s.trace) in
          let d = getenv_secret wla_password_env "WLA Service Password" in
          let password = env.answer d (b ∷ a ∷ s.trace) in
          let c = s.config in
          let asked = called b (called a ext) in
          Goes-when env t HasService (is_undefined url c.wls_api_url) _ _ _
            (string-fails env t wraps _ _ _ _ _ refl ext)
            λ e.
              Goes-when env t HasService (not (is_given user) && str_eq c.wla_api_username "") _ _ _
                (user-fails _ _ _ (called a ext))
                λ f.
                  Goes-when env t HasService (is_undefined password c.wla_api_password) _ _ _
                    (password-fails _ _ _ asked)
                    λ g. (
                      called d asked,
                      inl (
                        chosen-IsDefined url c.wls_api_url e,
                        (
                          given-IsDefined user c.wla_api_username f,
                          chosen-IsDefined password c.wla_api_password g,
                        ),
                      ),
                    )

      -- The settings and their save.
      configured : Func Err
      configured = body do take_account env; take_options env; saved ← call (save env); return saved

      configured-HasService :
          (s : State)
          → Extends t s.trace
          → (configured s).0 ≡ returned none
          → Settled env t HasService (configured s).1
      unfolding configured ◌>>=◌
      configured-HasService s ext h =
          settled env t HasService _
            (Finishes-last env t HasService _
              (search (keeps_rules, options-HasService, save-Keeps env HasService) depth 40)
              (search (keeps_rules, options-WasEmpty, save-WasEmpty env t) depth 40)
              (search (keeps_rules, options-Extends, save-Extends env t) depth 40)
              (take_account env s) (take_account-HasService s ext))
            h

  module _ (wraps : WrapsErrors env) where
    -- A run that returns no error.
    run-HasAccount :
        (flags : List String) (s : State)
        → (run env flags s).0 ≡ returned none
        → (HasAccount (run env flags s).1.config
            × (env.answer (parse_force update_service_config_command flags) s.trace ≡ ok true
                → IsDefined (run env flags s).1.config.wls_api_url))
          ⊎ EmptySince env s.trace (run env flags s).1.trace
    unfolding run skip_if_valid configured validate ◌>>=◌
    run-HasAccount flags s h =
        let c = parse_force update_service_config_command flags in
        let start = record s { trace = c ∷ s.trace } in
        let valid = validate-HasAccount start in
        let done = configured-HasService s.trace wraps start (called c same) in ground arith

    -- Where wrapping an error gives an error, a run of `update_service_config` that returns no error
    -- leaves a configuration that `Validate` accepts, or the environment gave one of the variables
    -- that setup tasks require as empty, without an error.
    pub run-validates :
        (flags : List String) (s : State)
        → (run env flags s).0 ≡ returned none
        → ((validate env (run env flags s).1).0 ≡ returned none)
          ⊎ EmptySince env s.trace (run env flags s).1.trace
    run-validates flags s h = elim (run-HasAccount flags s h) [
      | inl has ↦ inl (HasAccount-validate _ has.0)
      | inr e ↦ inr e
    ]

    -- Where wrapping an error gives an error, a run of `update_service_config` that is forced and
    -- returns no error leaves a configuration with the URL of the Workload Service, a user and a
    -- password, or the environment gave one of the variables that setup tasks require as empty,
    -- without an error.
    pub run-HasService :
        (flags : List String) (s : State)
        → env.answer (parse_force update_service_config_command flags) s.trace ≡ ok true
        → (run env flags s).0 ≡ returned none
        → HasService (run env flags s).1.config ⊎ EmptySince env s.trace (run env flags s).1.trace
    run-HasService flags s forced h = elim (run-HasAccount flags s h) [
      | inl has ↦ inl (has.1 forced, has.0)
      | inr e ↦ inr e
    ]
