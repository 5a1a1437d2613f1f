-- ===== src/Wlavm/Start.antt =====
-- wlavm/start.go: `Start`, and the signed trust report of a VM.
pub mod Posted
use workload_agent.Prelude.{String, true, false, not, none, some, [], str_eq, starts_with, Bool}
use workload_agent.Association.{create}
use workload_agent.Clients.{get_image_flavor_key, post_vm_report}
use workload_agent.Config.{get_signing_cert_from_file, get_signing_key_from_file}
use workload_agent.Consts.{mount_path, flavor_signing_cert_dir, trusted_ca_certs_dir}
use workload_agent.Libvirt.{DomainParser, new_domain_parser, start}
use workload_agent.Tpm.{get_tpm_instance}
use workload_agent.Types.{Err, Result, ok, err, Bytes, Handle, SignedData}
use workload_agent.World.{
  Env, hardware_uuid, create_vm_manifest, verify, json_marshal_report, json_marshal_signed,
  get_hashing_algorithm_name, get_hash_data, json_unmarshal_certified_key, tpm_close, tpm_sign,
}
use workload_agent.World.Go.{
  Func, Go, ◌>>=◌, ◌>>◌, return, panic, call, deferring, body, invoke, gets, when, value_or, nil_or,
  discard,
}

-- `report, _ := json.Marshal(…)`
abbrev bytes_or_nil : Result Bytes → Bytes
bytes_or_nil (ok text) = text
bytes_or_nil (err e) = []

abbrev pub empty_report : SignedData
empty_report = record { data_bytes = []; alg = ""; cert = []; signature = [] }

module _ (env : Env) where
  -- `createSignatureWithTPM`
  unfoldable pub create_signature_with_tpm : Bytes → Func (Bytes × Err)
  create_signature_with_tpm contents = body do
    key_file ← call (get_signing_key_from_file env)
    signing_key_json ← value_or key_file λ e. ([], some e)
    unmarshalled ← invoke env (json_unmarshal_certified_key signing_key_json)
    signing_key ← value_or unmarshalled λ e. ([], some e)
    t ← call (get_tpm_instance env)
    nil_or t.1 λ e. (
      [],
      env.wrap (some e)
          "wlavm/start:createSignatureWithTPM() Error attempting to create signature - could not open TPM",
    )
    when (not t.0) panic
    deferring (discard env tpm_close) do
      hashed ← invoke env (get_hash_data contents)
      h ← value_or hashed λ e. (
        [],
        env.wrap (some e)
            "wlavm/start:createSignatureWithTPM() Error while getting hash of instance report",
      )
      secret ← gets λ s. s.config.signing_key_secret
      signed ← invoke env (tpm_sign signing_key secret h)
      signature ← value_or signed λ e. (
        [],
        env.wrap (some e) "wlavm/start:createSignatureWithTPM() Error while creating tpm signature",
      )
      return (signature, none)

  -- `signInstanceTrustReport`; on an error the report is nil.
  unfoldable pub sign_instance_trust_report : Handle → Func (SignedData × Err)
  sign_instance_trust_report report = body do
    marshalled ← invoke env (json_marshal_report report)
    contents ← value_or marshalled λ e. (
      empty_report,
      env.wrap (some e)
          "wlavm/start:signInstanceTrustReport() could not marshal instance trust report",
    )
    alg ← invoke env get_hashing_algorithm_name
    cert ← call (get_signing_cert_from_file env)
    nil_or cert.1 λ e. (empty_report, some e)
    signature ← call (create_signature_with_tpm contents)
    nil_or signature.1 λ e. (empty_report, some e)
    return
        (record { data_bytes = contents; alg = alg; cert = cert.0; signature = signature.0 }, none)

  -- `CreateInstanceTrustReport`. The type assertion on the report panics where it does not hold.
  unfoldable pub create_instance_trust_report : Handle → Handle → String → Func Bool
  create_instance_trust_report manifest flavor flavor_signature = body do
    skip ← gets λ s. s.config.skip_flavor_signature_verification
    verified ←
        invoke env (
          verify manifest flavor flavor_signature flavor_signing_cert_dir trusted_ca_certs_dir skip)
    report ← value_or verified λ e. false
    invoke env (json_marshal_report report.1)
    when (not report.0) panic
    signed ← call (sign_instance_trust_report report.1)
    nil_or signed.1 λ e. false
    marshalled ← invoke env (json_marshal_signed signed.0)
    posted ← call (post_vm_report env (bytes_or_nil marshalled))
    nil_or posted λ e. false
    return true

  -- The block of `Start` for an image in the crypto path.
  unfoldable pub report_and_associate : DomainParser → Go Bool (Unit {0})
  report_and_associate d = do
    hardware ← invoke env hardware_uuid
    uuid ← value_or hardware λ e. false
    received ← call (get_image_flavor_key env d.image_uuid uuid)
    nil_or received.1 λ e. false
    when (str_eq received.0.meta_id "") (return false)
    made ← invoke env (create_vm_manifest d.vm_uuid uuid d.image_uuid true)
    manifest ← value_or made λ e. false
    status ← call (create_instance_trust_report manifest received.0.flavor received.0.signature)
    when (not status) (return false)
    associated ← call (create env (record { image_uuid = d.image_uuid; image_path = d.image_path }))
    nil_or associated λ e. false

  -- `Start`
  unfoldable pub start_vm : String → Func Bool
  start_vm domain_xml_content = body do
    parsed ← call (new_domain_parser env domain_xml_content start)
    d ← value_or parsed λ e. false
    when (starts_with d.image_path mount_path) (report_and_associate d)
    return true
