-- ===== src/Keys/Registration/Panics.antt =====
-- Where the request of a key's registration panics (common/key_registration.go).
use workload_agent.Prelude.{
  ℕ, zero, suc, Bool, true, not, is_some, ltb, length, ◌&&◌, ◌||◌, ◌≡◌, ◌↔◌, Option, none, some, [],
  ◌∷◌, arith,
}
use workload_agent.Keys.Registration.{slice_from, create_request}
use workload_agent.Types.{Err, Bytes, CertifiedKey, ok}
use workload_agent.World.{
  Env, State, json_unmarshal_certified_key, read_file, pem_decode, parse_certificate,
}
use workload_agent.World.Go.{Outcome, ◌>>=◌}

-- The certificate file has no PEM block, or its certificate parses and the key's attestation is
-- shorter than 2 bytes or its name is empty.
abbrev pub is_malformed : Option Bytes → (Bytes → Err) → CertifiedKey → Bool
is_malformed none parsed key = true
is_malformed (some der) parsed key =
    not (is_some (parsed der))
    && (ltb (length key.key_attestation) 2 || ltb (length key.key_name) 1)

slice-length : (n : ℕ) (l : Bytes) → is_some (slice_from n l) ≡ not (ltb (length l) n)
slice-length zero l = ground arith
slice-length (suc n) [] = ground arith
slice-length (suc n) (b ∷ l) = ground (arith, slice-length n l)

module _ (env : Env) where
  -- Where the key's file is valid JSON and the certificate's file can be read, `CreateRequest`
  -- panics exactly where that file has no PEM block, or its certificate parses and the key's
  -- attestation is shorter than 2 bytes or its name is empty.
  pub create_request-panics :
      (text aik : Bytes) (key : CertifiedKey) (s : State)
      → env.answer (json_unmarshal_certified_key text) s.trace ≡ ok key
      → let t = json_unmarshal_certified_key text ∷ s.trace in
        env.answer (read_file s.config.trust_agent_aik_pem_file) t ≡ ok aik
        → let u = read_file s.config.trust_agent_aik_pem_file ∷ t in
          ((create_request env text s).0 ≡ Outcome.panicked) ↔ (
            is_malformed
              (env.answer (pem_decode aik) u)
              (λ der. env.answer (parse_certificate der) (pem_decode aik ∷ u))
              key
            ≡ true)
  unfolding create_request ◌>>=◌
  create_request-panics text aik key s e f =
      let attestation = slice-length 2 key.key_attestation in
      let name = slice-length 1 key.key_name in ground (arith, e, f)
