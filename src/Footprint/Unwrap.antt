-- ===== src/Footprint/Unwrap.antt =====
-- What `UnWrapKey` of the key provider touches (keyprovider-grpc/server.go).
use workload_agent.Prelude.{List, not, refl, Bool, true, false, ◌==◌, String, ◌≡◌, length, arith}
use workload_agent.Clients.{get_key_with_url}
use workload_agent.Flavor.{retrieve_key_with_url}
use workload_agent.Footprint.Services.{IsHarmless, unwrap_key-Emitted}
use workload_agent.Keyprovider.{aes_decrypt, un_wrap_key}
use workload_agent.Types.{Bytes}
use workload_agent.World.{Env, State, Call, new_aes_cipher}
use workload_agent.World.Go.{Go, when, return, ◌>>=◌}
use workload_agent.World.Keeps.{
  Keeps, Emitted, Emits, Keeps-Emits, Keeps-body, Emitted-invoke, keeps_rules,
}

-- The calls that `UnWrapKey` may make: AES is given keys of 256 bits alone.
abbrev pub MayUnwrap : Call → Type 0
MayUnwrap (new_aes_cipher key) = length key ≡ 32
MayUnwrap c = IsHarmless c

-- A test that returns, and a rest that may use that it failed.
Keeps-guard {ℓ κ} :
    {R : Type ℓ} {A : Type κ} {P : State → Type 0} (b : Bool) (r : R) (m : Go R A)
    → (b ≡ false → Keeps P m)
    → Keeps P (when b (return r) >>= λ _. m)
unfolding ◌>>=◌
Keeps-guard true r m k = record { at = λ s h. h }
Keeps-guard false r m k = record { at = λ s h. (k refl).at s h }

safe : (c : Call) → IsHarmless c → MayUnwrap c
safe (new_aes_cipher key) h = absurd h
safe _ h = h

module _ (env : Env) (t : List Call) where
  aes_decrypt-Emitted :
      (kek sym_key : Bytes) → Keeps (Emitted MayUnwrap t) (aes_decrypt env kek sym_key)
  unfolding aes_decrypt
  aes_decrypt-Emitted kek sym_key = Keeps-body _ (
      Keeps-guard (not (length kek == 32)) _ _ λ fits.
        let key_length : length kek ≡ 32 = ground arith in
        search (keeps_rules, Emitted-invoke, safe, key_length) depth 40)

  get_key-Emitted :
      (url hardware : String) → Keeps (Emitted MayUnwrap t) (get_key_with_url env url hardware)
  unfolding get_key_with_url
  get_key-Emitted url hardware = search (keeps_rules, Emitted-invoke, safe) depth 40

  retrieve-Emitted : (url : String) → Keeps (Emitted MayUnwrap t) (retrieve_key_with_url env url)
  unfolding retrieve_key_with_url
  retrieve-Emitted url = search (keeps_rules, Emitted-invoke, get_key-Emitted, safe) depth 40

  un_wrap_key-Emitted : (request : Bytes) → Keeps (Emitted MayUnwrap t) (un_wrap_key env request)
  unfolding un_wrap_key
  un_wrap_key-Emitted request =
      search
        (
          keeps_rules, Emitted-invoke, retrieve-Emitted, unwrap_key-Emitted, aes_decrypt-Emitted,
          safe,
        )
        depth 40

-- `UnWrapKey` gives AES only keys of 256 bits; it writes and removes no file, runs no command,
-- changes no volume and posts no report, however it ends.
pub un_wrap_key-MayUnwrap :
    (env : Env) (request : Bytes) → Emits MayUnwrap (un_wrap_key env request)
un_wrap_key-MayUnwrap env request =
    Keeps-Emits (un_wrap_key env request) (λ t. un_wrap_key-Emitted env t request)
