-- ===== src/Keyprovider.antt =====
-- keyprovider-grpc/server.go: the key provider of the container runtime.
use workload_agent.Prelude.{[], not, none, some, ◌==◌, length}
use workload_agent.Flavor.{retrieve_key_with_url}
use workload_agent.Tpm.{unwrap_key}
use workload_agent.Types.{Err, Bytes}
use workload_agent.World.{
  Env, json_unmarshal_wrap_input, json_unmarshal_annotation, json_unmarshal_aes,
  json_marshal_unwrap_output, new_aes_cipher, new_gcm, gcm_open,
}
use workload_agent.World.Go.{Func, ◌>>=◌, ◌>>◌, return, call, body, invoke, when, value_or, nil_or}

module _ (env : Env) where
  -- `aesDecrypt`
  unfoldable pub aes_decrypt : Bytes → Bytes → Func (Bytes × Err)
  aes_decrypt kek sym_key = body do
    when (not (length kek == 32)) (return ([], some "Expected 256 bit key"))
    unmarshalled ← invoke env (json_unmarshal_aes sym_key)
    aesp ← value_or unmarshalled λ e. ([], env.wrap (some e) "Unable to unmarshal aes packet")
    cipher_err ← invoke env (new_aes_cipher kek)
    nil_or cipher_err λ e. ([], some e)
    gcm_err ← invoke env new_gcm
    nil_or gcm_err λ e. ([], some e)
    opened ← invoke env (gcm_open aesp.nonce aesp.ciphertext)
    key ← value_or opened λ e. ([], some e)
    return (key, none)

  -- `GRPCServer.UnWrapKey`, on the bytes of the request; the response is its bytes, empty for nil.
  unfoldable pub un_wrap_key : Bytes → Func (Bytes × Err)
  un_wrap_key request = body do
    key_p ← invoke env (json_unmarshal_wrap_input request)
    annotation ←
        value_or key_p
          λ e. ([], env.wrap (some e) "Error while unmarshalling KeyProviderKeyWrapProtocolInput")
    packet ← invoke env (json_unmarshal_annotation annotation)
    apkt ←
        value_or packet λ e. ([], env.wrap (some e) "Error while unmarshalling annotation packet")
    retrieved ← call (retrieve_key_with_url env apkt.key_url)
    when (not retrieved.1) (return ([], some "Error while retrieving wrapped kek"))
    sym_key ← call (unwrap_key env retrieved.0)
    nil_or sym_key.1 λ e. ([], env.wrap (some e) "Error while unwrapping kek")
    unwrapped_key ← call (aes_decrypt sym_key.0 apkt.wrapped_key)
    nil_or unwrapped_key.1 λ e. ([], env.wrap (some e) "Error while decrypting key")
    serialized ← invoke env (json_marshal_unwrap_output unwrapped_key.0)
    output ←
        value_or serialized
          λ e. ([], env.wrap (some e) "Error while serializing KeyProviderKeyWrapProtocolOutput")
    return (output, none)

  -- `GRPCServer.WrapKey`
  unfoldable pub wrap_key : Bytes → Func (Bytes × Err)
  wrap_key request = body (return ([], none))
