-- ===== src/Tpm/Connection.antt =====
-- When `UnwrapKey` panics, and when it gives a key (util/util.go).
use workload_agent.Prelude.{Bool, true, false, not, ◌&&◌, ◌||◌, ◌≡◌, is_some, is_empty, ◌∷◌, arith}
use workload_agent.Tpm.{get_tpm_instance, unwrap_key}
use workload_agent.Types.{Bytes}
use workload_agent.World.{Env, State, new_tpm_factory, new_tpm_provider}
use workload_agent.World.Go.{◌>>=◌, discard, Outcome, returned}

abbrev pub panics {ℓ} : {A : Type ℓ} → Outcome A → Bool
panics (returned a) = false
panics Outcome.panicked = true
panics (Outcome.exited n) = false

module _ (env : Env) where
  -- `UnwrapKey` panics exactly where the wrapped key is not empty and the TPM factory fails or
  -- gives no provider: the error of `GetTpmInstance` is never returned.
  pub unwrap_key-panics :
      (wrapped : Bytes) (s : State)
      → panics (unwrap_key env wrapped s).0 ≡ (
          not (is_empty wrapped)
          && (is_some (env.answer new_tpm_factory s.trace)
              || not (env.answer new_tpm_provider (new_tpm_factory ∷ s.trace)).0))
  unfolding unwrap_key get_tpm_instance ◌>>=◌ discard
  unwrap_key-panics wrapped s = ground arith
