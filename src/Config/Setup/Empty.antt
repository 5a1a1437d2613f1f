-- ===== src/Config/Setup/Empty.antt =====
-- The variables that setup tasks require, and the calls that were given an empty one
-- (config/config.go, setup/update_service_config.go).
use mathlib.Core.Path.{subst}
use workload_agent.Prelude.{String, true, ◌≡◌, sym, List, [], ◌∷◌}
use workload_agent.Consts.{
  aas_url, cms_base_url_env, cms_tls_cert_digest_env, hvs_url_env, wls_api_url_env,
  wla_username_env, wla_password_env,
}
use workload_agent.Setup.UpdateServiceConfig.{is_one_of}
use workload_agent.Types.{ok}
use workload_agent.World.{Env, State, Call, getenv_string, getenv_secret}
use workload_agent.World.Go.{modify}
use workload_agent.World.Keeps.{Keeps}

-- The variables that a setup task cannot do without.
abbrev pub required_variables : List String
required_variables =
    aas_url ∷ cms_base_url_env ∷ cms_tls_cert_digest_env ∷ hvs_url_env ∷ wls_api_url_env
    ∷ wla_username_env ∷ wla_password_env ∷ []

-- The call asks for such a variable, which is given as empty, without an error.
abbrev pub IsEmptyGiven : Env → Call → List Call → Type 0
IsEmptyGiven env (getenv_string name description) t =
    (is_one_of name required_variables ≡ true)
    × (env.answer (getenv_string name description) t ≡ ok "")
IsEmptyGiven env (getenv_secret name description) t =
    (is_one_of name required_variables ≡ true)
    × (env.answer (getenv_secret name description) t ≡ ok "")
IsEmptyGiven env c t = ⊥

-- The calls go on from `t`.
pub data Extends (t : List Call) : List Call → Type 0 where
  same : Extends t t
  called : {l : List Call} (c : Call) → Extends t l → Extends t (c ∷ l)

pub Extends-modify {κ} :
    {R : Type κ} {t : List Call} (f : State → State)
    → ((s : State) → (f s).trace ≡ s.trace)
    → Keeps (λ s. Extends t s.trace) (modify {R = R} f)
unfolding modify
Extends-modify {t} f traces = record { at = λ s h. subst (Extends t) (sym (traces s)) h }

-- Since the calls `t`, a variable that is required was given as empty without an error.
pub data EmptySince (env : Env) (t : List Call) : List Call → Type 0 where
  at_call :
      {l : List Call} (c : Call) → IsEmptyGiven env c l → Extends t l → EmptySince env t (c ∷ l)
  onward : {l : List Call} (c : Call) → EmptySince env t l → EmptySince env t (c ∷ l)
