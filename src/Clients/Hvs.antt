-- ===== src/Clients/Hvs.antt =====
-- clients/hvs_client.go: the registration of keys with the Host Verification Service.
use workload_agent.Prelude.{
  String, Bool, true, false, none, some, Option, [], str_eq, if◌then◌else◌,
}
use workload_agent.Consts.{bearer_token_env, trusted_ca_certs_dir}
use workload_agent.Types.{Err, Result, ok, err, Bytes, RegisterKeyInfo}
use workload_agent.World.{
  Env, getenv_secret, new_vs_client_factory, certify_host_keys_client, certify_host_key,
  json_unmarshal_key_cert,
}
use workload_agent.World.Go.{
  Func, Go, ◌>>=◌, ◌>>◌, pure, return, call, body, invoke, gets, value_or, nil_or,
}

module _ (env : Env) where
  -- `if jwtToken == "" || err != nil { return nil, errors.Wrap(err, …) }`
  unfoldable pub require_token : Result String → Go (Bytes × Err) String
  require_token (ok token) =
      if str_eq token ""
      then return ([], env.wrap none "BEARER_TOKEN is not defined in environment")
      else pure token
  require_token (err e) =
      return ([], env.wrap (some e) "BEARER_TOKEN is not defined in environment")

  -- `certifyHostKey`, for a signing key or else a binding key.
  unfoldable pub certify_key : Option RegisterKeyInfo → Bool → Func (Bytes × Err)
  certify_key key_info is_signing = body do
    secret ← invoke env (getenv_secret bearer_token_env "BEARER_TOKEN")
    jwt_token ← require_token secret
    url ← gets λ s. s.config.hvs_api_url
    factory_err ← invoke env (new_vs_client_factory url jwt_token trusted_ca_certs_dir)
    nil_or factory_err λ e. ([], env.wrap (some e) "Error while instantiating VSClientFactory")
    client_err ← invoke env certify_host_keys_client
    nil_or client_err λ e. ([], env.wrap (some e) "Error while instantiating CertifyHostKeysClient")
    response ← invoke env (certify_host_key is_signing key_info)
    response_data ← value_or response λ e. ([], env.wrap (some e) "Error from response")
    return (response_data, none)

  -- `CertifyHostSigningKey`: the certificate, nil beside an error.
  unfoldable pub certify_host_signing_key : Option RegisterKeyInfo → Func (Option Bytes × Err)
  certify_host_signing_key key = body do
    rsp ← call (certify_key key true)
    nil_or rsp.1 λ e. (
      none,
      env.wrap (some e)
          "clients/hvs_client:CertifyHostSigningKey()  error registering signing key with HVS",
    )
    unmarshalled ← invoke env (json_unmarshal_key_cert true rsp.0)
    key_cert ← value_or unmarshalled λ e. (
      none,
      env.wrap (some e)
          "clients/hvs_client:CertifyHostSigningKey() error decoding signing key certificate",
    )
    return (some key_cert, none)

  -- `CertifyHostBindingKey`
  unfoldable pub certify_host_binding_key : Option RegisterKeyInfo → Func (Option Bytes × Err)
  certify_host_binding_key key = body do
    rsp ← call (certify_key key false)
    nil_or rsp.1 λ e. (
      none,
      env.wrap (some e)
          "clients/hvs_client:CertifyHostBindingKey() error registering binding key with HVS",
    )
    unmarshalled ← invoke env (json_unmarshal_key_cert false rsp.0)
    key_cert ← value_or unmarshalled λ e. (
      none,
      env.wrap (some e)
          "clients/hvs_client:CertifyHostBindingKey() error decoding binding key certificate.",
    )
    return (some key_cert, none)
