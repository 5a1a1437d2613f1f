-- ===== src/Keys/Registration.antt =====
-- common/key_registration.go: the request that registers a key, and the file of its certificate.
pub mod Panics
use workload_agent.Prelude.{
  ℕ, zero, suc, String, Option, none, some, true, [], ◌∷◌, ◌++◌, if◌then◌else◌,
}
use workload_agent.Consts.{pem_certificate_header}
use workload_agent.Types.{Err, Bytes, CertifiedKey, RegisterKeyInfo}
use workload_agent.World.{
  Env, json_unmarshal_certified_key, read_file, pem_decode, parse_certificate, open_file,
  pem_encode,
}
use workload_agent.World.Go.{
  Func, Go, ◌>>=◌, ◌>>◌, return, some_or_panic, body, invoke, gets, value_or, nil_or,
}

-- `l[n:]`, out of range for a shorter list.
abbrev pub slice_from : ℕ → Bytes → Option Bytes
slice_from zero l = some l
slice_from (suc n) [] = none
slice_from (suc n) (b ∷ l) = slice_from n l

-- `make([]byte, n)`
abbrev pub zeros : ℕ → Bytes
zeros zero = []
zeros (suc n) = 0 ∷ zeros n

-- The request from a key, the bytes of the AIK certificate, and the two slices of the key.
abbrev pub request_of : CertifiedKey → Bytes → Bytes → Bytes → RegisterKeyInfo
request_of key aik_der attestation name = record {
  public_key_modulus = key.public_key;
  tpm_certify_key = attestation;
  tpm_certify_key_signature = key.key_signature;
  aik_der_certificate = aik_der;
  name_digest = name ++ zeros 34;
  tpm_version = if key.is_v20 then "2.0" else "1.2";
  -- `strings.Title(runtime.GOOS)` on Linux
  os_type = "Linux";
}

module _ (env : Env) where
  -- `CreateRequest`. A certificate file with no PEM block, and a key with a short attestation or
  -- name, make it panic.
  unfoldable pub create_request : Bytes → Func (Option RegisterKeyInfo × Err)
  create_request key = body do
    unmarshalled ← invoke env (json_unmarshal_certified_key key)
    key_info ← value_or unmarshalled λ e. (
      none,
      env.wrap (some e)
          "common/key_registration:CreateRequest() Error while unmarshalling tpm Certified Key",
    )
    aik_pem_file ← gets λ s. s.config.trust_agent_aik_pem_file
    aik_file ← invoke env (read_file aik_pem_file)
    aik_cert ← value_or aik_file λ e. (
      none,
      env.wrap (some e) "common/key_registration:CreateRequest() Error reading certificate file. ",
    )
    block ← invoke env (pem_decode aik_cert)
    aik_der ← some_or_panic block
    parsed ← invoke env (parse_certificate aik_der)
    nil_or parsed λ e. (
      none,
      env.wrap (some e) "common/key_registration:CreateRequest() Error parsing certificate file. ",
    )
    attestation ← some_or_panic (slice_from 2 key_info.key_attestation)
    name ← some_or_panic (slice_from 1 key_info.key_name)
    return (some (request_of key_info aik_der attestation name), none)

  -- `WriteKeyCertToDisk`. The file is never closed.
  unfoldable pub write_key_cert_to_disk : String → Bytes → Func Err
  write_key_cert_to_disk key_cert_path certificate = body do
    opened ← invoke env (open_file key_cert_path true 0o600)
    nil_or opened
        λ e. env.wrap (some e) "common/key_registration:WriteKeyCertToDisk() Error creating file. "
    encoded ← invoke env (pem_encode key_cert_path pem_certificate_header certificate)
    nil_or encoded λ e.
        env.wrap (some e)
          "common/key_registration:WriteKeyCertToDisk() Error writing certificate to file. "
    return none
