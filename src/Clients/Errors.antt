-- ===== src/Clients/Errors.antt =====
-- Which failures of the Workload Service the agent reports (clients/workload_service_client.go).
use workload_agent.Prelude.{String, Bool, false, not, ◌||◌, ◌≡◌, is_some, none, some, ◌∷◌, arith}
use workload_agent.Prelude.Strings.{contains}
use workload_agent.Association.Persistence.{WrapsErrors}
use workload_agent.Clients.{get_image_flavor_key, client_factory}
use workload_agent.Types.{Err, FlavorKey}
use workload_agent.World.{Env, State, flavors_client, wls_get_image_flavor_key}
use workload_agent.World.Go.{◌>>=◌, Outcome, returned}

-- An error that does not mention 404.
abbrev pub is_serious : Err → Bool
is_serious none = false
is_serious (some e) = not (contains e "404")

abbrev pub reports_error {ℓ} : {A : Type ℓ} → Outcome (A × Err) → Bool
reports_error (returned (a, e)) = is_some e
reports_error Outcome.panicked = false
reports_error (Outcome.exited n) = false

module _ (env : Env) where
  abbrev answer_of : String → String → State → FlavorKey × Err
  answer_of image hardware s =
      env.answer (wls_get_image_flavor_key image hardware)
        (flavors_client ∷ client_factory s.config ∷ s.trace)

  -- `GetImageFlavorKey` returns an error exactly where a client cannot be made or the service
  -- answers with an error that does not mention 404.
  pub get_image_flavor_key-error :
      (image hardware : String) (s : State)
      → WrapsErrors env
      → reports_error (get_image_flavor_key env image hardware s).0 ≡ (
          is_some (env.answer (client_factory s.config) s.trace)
          || is_some (env.answer flavors_client (client_factory s.config ∷ s.trace))
          || is_serious (answer_of image hardware s).1)
  unfolding get_image_flavor_key ◌>>=◌
  get_image_flavor_key-error image hardware s wraps = grind arith
