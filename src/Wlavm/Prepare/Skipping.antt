-- ===== src/Wlavm/Prepare/Skipping.antt =====
-- When `Prepare` skips the volume of an image that is decrypted already (wlavm/prepare.go).
use workload_agent.Prelude.{String, ◌≡◌, true, false, List, arith}
use workload_agent.Types.{ok}
use workload_agent.Wlavm.Prepare.{is_already_decrypted}
use workload_agent.World.{Env, State, Call, encryption_header_exists}
use workload_agent.World.Go.{◌>>=◌, next}

module _ (env : Env) where
  -- Where every test for an encryption header says that the image is encrypted, as the test before
  -- this step did, the image's volume is never skipped, whatever the decrypted image holds.
  pub is_already_decrypted-false :
      (decrypted_path image_path : String) (s : State)
      → ((t : List Call) → env.answer (encryption_header_exists image_path) t ≡ ok true)
      → (is_already_decrypted env decrypted_path image_path s).0 ≡ next false
  unfolding is_already_decrypted ◌>>=◌
  is_already_decrypted-false decrypted_path image_path s encrypted = grind (arith, encrypted)
