-- ===== src/Config/Setup/Complete.antt =====
-- A setup task that needs a setting saves a configuration that has it (config/config.go).
use mathlib.Core.Path.{subst}
use workload_agent.Prelude.{
  sym, String, true, false, ◌≡◌, ◌≢◌, ◌⊎◌, refl, inl, inr, none, some, List, ◌∷◌, str_eq, eq_iff,
  arith,
}
use workload_agent.Prelude.Strings.{trim_space}
use workload_agent.Association.Persistence.{WrapsErrors}
use workload_agent.Config.Setup.{
  error_of, chosen, is_undefined, create_if_absent, save, check_cms_config, check_hvs_config,
  save_configuration,
}
use workload_agent.Consts.{
  hvs_url_env, cms_base_url_env, cms_tls_cert_digest_env, download_root_ca_cert_command,
  register_signing_key_command, register_binding_key_command,
}
use workload_agent.Types.{Err, Result, ok, err, Configuration, OpenResult, opened, absent, denied}
use workload_agent.World.{Env, State, Call, getenv_string}
use workload_agent.Setup.UpdateServiceConfig.{is_one_of}
use workload_agent.Config.Setup.Steps.{
  required_variables, Extends, same, called, EmptySince, at_call, WasEmpty, Goes, Finishes, Checks,
  settled, Finishes-when, Finishes-last, empty-invoke, empty-modify, empty-discard, Extends-invoke,
  Extends-discard,
}
use workload_agent.World.Go.{
  Go, Flow, next, ◌>>=◌, call, return, nil_or, discard, returned, Outcome, continue, resume, settle,
}
use workload_agent.World.Keeps.{Keeps, keeps_rules}

-- A setting that is not empty.
abbrev pub IsDefined : String → Type 0
IsDefined value = str_eq value "" ≡ false

-- The settings of the CMS.
abbrev pub HasCa : Configuration → Type 0
HasCa c = IsDefined c.cms_base_url × IsDefined c.cms_tls_cert_digest

trim_space-empty : trim_space "" ≡ ""
unfolding trim_space
trim_space-empty = refl

trim_space-IsDefined : (value : String) → IsDefined (trim_space value) → IsDefined value
trim_space-IsDefined value h =
    grind (arith, eq_iff value "", eq_iff (trim_space value) "", trim_space-empty)

pub chosen-IsDefined :
    (r : Result String) (old : String) → is_undefined r old ≡ false → IsDefined (chosen r old)
chosen-IsDefined (ok value) old h = ground (arith, trim_space-IsDefined old)
chosen-IsDefined (err e) old h = trim_space-IsDefined old h

-- What the return of an undefined setting's error tells.
pub undefined_fails :
    (r : Result String) (old : String) (env : Env) (message : String)
    → WrapsErrors env
    → is_undefined r old ≡ true
    → (r ≡ ok "") ⊎ (env.wrap (error_of r) message ≢ none)
undefined_fails (ok value) old env message wraps h = inl (grind (arith, eq_iff value ""))
undefined_fails (err e) old env message wraps h = inr (wraps e message)

without : {A B : Type 0} → (Unit {0} × A) ⊎ B → A ⊎ B
without (inl h) = inl h.1
without (inr h) = inr h

module _ (env : Env) where
  pub save-config : (s : State) → (save env s).1.config ≡ s.config
  unfolding save create_if_absent ◌>>=◌ discard
  save-config s = ground arith

  module _ (t : List Call) where
    ruleset rules =
        (keeps_rules, empty-invoke, empty-modify, empty-discard, Extends-invoke, Extends-discard)

    create-Extends :
        (file : OpenResult) → Keeps (λ s. Extends t s.trace) (create_if_absent env file)
    unfolding create_if_absent
    create-Extends opened = search rules depth 40
    create-Extends absent = search rules depth 40
    create-Extends (denied e) = search rules depth 40

    create-WasEmpty : (file : OpenResult) → Keeps (WasEmpty env t) (create_if_absent env file)
    unfolding create_if_absent
    create-WasEmpty opened = search rules depth 40
    create-WasEmpty absent = search rules depth 40
    create-WasEmpty (denied e) = search rules depth 40

    pub save-Extends : Keeps (λ s. Extends t s.trace) (save env)
    unfolding save
    save-Extends = search (rules, create-Extends) depth 40

    pub save-WasEmpty : Keeps (WasEmpty env t) (save env)
    unfolding save
    save-WasEmpty = search (rules, create-WasEmpty) depth 40

    module _ (wraps : WrapsErrors env) where
      -- Where a required variable is undefined, it was empty, or its error is returned.
      pub string-fails :
          (name description old message : String) (l : List Call)
          → is_one_of name required_variables ≡ true
          → Extends t l
          → is_undefined (env.answer (getenv_string name description) l) old ≡ true
          → EmptySince env t (getenv_string name description ∷ l)
            ⊎ (env.wrap (error_of (env.answer (getenv_string name description) l)) message ≢ none)
      string-fails name description old message l needed ext u =
          let c = getenv_string name description in
          elim (undefined_fails (env.answer c l) old env message wraps u) [
            | inl e ↦ inl (at_call c (needed, e) ext)
            | inr fails ↦ inr fails
          ]

      pub hvs-Checks :
          (P : Configuration → Type 0)
          → ((c : Configuration) (url : String) → P c → P (record c { hvs_api_url = url }))
          → Checks env t P (λ c. P c × IsDefined c.hvs_api_url) (check_hvs_config env)
      unfolding check_hvs_config ◌>>=◌
      hvs-Checks P frame = record {
        at = λ s ext p.
            let c = getenv_string hvs_url_env "Verification Service URL" in
            let r = env.answer c s.trace in
            Finishes-when env t (λ c. P c × IsDefined c.hvs_api_url)
              (is_undefined r s.config.hvs_api_url) _ _ _ (string-fails _ _ _ _ _ refl ext)
              λ d.
                (called c ext, inl (frame s.config _ p, chosen-IsDefined r s.config.hvs_api_url d));
        keeps = search rules depth 40;
      }

      pub cms-Checks :
          (P : Configuration → Type 0)
          → ((c : Configuration) (url digest : String)
              → P c
              → P (record c { cms_base_url = url; cms_tls_cert_digest = digest }))
          → Checks env t P (λ c. P c × HasCa c) (check_cms_config env)
      unfolding check_cms_config ◌>>=◌
      cms-Checks P frame = record {
        at = λ s ext p.
            let Q : Configuration → Type 0 = λ c. P c × HasCa c in
            let c = getenv_string cms_base_url_env "CMS Base URL" in
            let r = env.answer c s.trace in
            let d = getenv_string cms_tls_cert_digest_env "CMS TLS certificate digest" in
            let digest = env.answer d (c ∷ s.trace) in
            Finishes-when env t Q (is_undefined r s.config.cms_base_url) _ _ _
              (string-fails _ _ _ _ _ refl ext)
              λ e.
                Finishes-when env t Q (is_undefined digest s.config.cms_tls_cert_digest) _ _ _
                  (string-fails _ _ _ _ _ refl (called c ext))
                  λ f. (
                    called d (called c ext),
                    inl (
                      frame s.config _ _ p,
                      (
                        chosen-IsDefined r s.config.cms_base_url e,
                        chosen-IsDefined digest s.config.cms_tls_cert_digest f,
                      ),
                    ),
                  );
        keeps = search rules depth 40;
      }

  module _ (P : Configuration → Type 0) where
    pub save-Keeps : Keeps (λ s. P s.config) (save env)
    save-Keeps = record { at = λ s h. subst P (sym (save-config s)) h }

  -- The end of `SaveConfiguration`.
  abbrev pub save_last : Go Err Err
  save_last = do saved ← call (save env); return saved

  pub Finishes-save :
      (t : List Call) (Q : Configuration → Type 0) (r : Flow Err (Unit {0}) × State)
      → Goes env t Q r
      → Finishes env t Q (settle (continue r λ u. save_last))
  Finishes-save t Q =
      Finishes-last env t Q save_last (search (keeps_rules, save-Keeps Q) depth 20)
        (search (keeps_rules, save-WasEmpty) depth 20) (search (keeps_rules, save-Extends) depth 20)

  -- `SaveConfiguration` after a check.
  checked_save : Outcome Err × State → Outcome Err × State
  checked_save r =
      settle (continue (continue (resume r) λ failure. nil_or failure λ e. some e) λ u. save_last)

  checked_save-Finishes :
      (t : List Call) (Q : Configuration → Type 0) (r : Outcome Err × State)
      → Finishes env t Q r
      → Finishes env t Q (checked_save r)
  unfolding checked_save ◌>>=◌
  checked_save-Finishes t Q (returned none, s) h = Finishes-save t Q (next tt, s) h
  checked_save-Finishes t Q (returned (some e), s) h = tt
  checked_save-Finishes t Q (Outcome.panicked, s) h = tt
  checked_save-Finishes t Q (Outcome.exited n, s) h = tt

  module _ (wraps : WrapsErrors env) where
    -- Where wrapping an error gives an error, `SaveConfiguration` that returns no error has the URL
    -- of the CMS and the digest of its certificate in the configuration, for the download of the CA
    -- certificate, and the URL of the HVS, for the registration of a key; or the environment gave
    -- one of the variables that setup tasks require as empty, without an error.
    pub save_configuration-IsDefined :
        (s : State)
        → let ca = save_configuration env download_root_ca_cert_command s in
          let signing = save_configuration env register_signing_key_command s in
          let binding = save_configuration env register_binding_key_command s in
          (ca.0 ≡ returned none
            → (IsDefined ca.1.config.cms_base_url × IsDefined ca.1.config.cms_tls_cert_digest)
              ⊎ EmptySince env s.trace ca.1.trace)
          × (signing.0 ≡ returned none
              → IsDefined signing.1.config.hvs_api_url ⊎ EmptySince env s.trace signing.1.trace)
          × (binding.0 ≡ returned none
              → IsDefined binding.1.config.hvs_api_url ⊎ EmptySince env s.trace binding.1.trace)
    unfolding save_configuration checked_save ◌>>=◌
    save_configuration-IsDefined s =
        let t = s.trace in
        let ca = (cms-Checks t wraps (λ c. Unit) λ c url digest u. u).at s same tt in
        let hvs = (hvs-Checks t wraps (λ c. Unit) λ c url u. u).at s same tt in
        let saved =
          checked_save-Finishes t (λ c. Unit × IsDefined c.hvs_api_url) (check_hvs_config env s)
            hvs in
        (
          λ e. without (
              settled env t (λ c. Unit × HasCa c) _
                (checked_save-Finishes t (λ c. Unit × HasCa c) (check_cms_config env s) ca) e),
          λ e. without (settled env t (λ c. Unit × IsDefined c.hvs_api_url) _ saved e),
          λ e. without (settled env t (λ c. Unit × IsDefined c.hvs_api_url) _ saved e),
        )
