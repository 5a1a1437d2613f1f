-- ===== src/Footprint/Start.antt =====
-- What `Start` touches (wlavm/start.go).
use workload_agent.Prelude.{List, String, ◌≡◌}
use workload_agent.Association.{image_vm_association_file_path}
use workload_agent.Footprint.Services.{
  IsHarmless, discard-Emitted, flavor_key-Emitted, tpm-Emitted, domain_parser-Emitted,
  signing_key-Emitted, signing_cert-Emitted, create-Emitted, post-Emitted,
}
use workload_agent.Types.{Bytes, Handle}
use workload_agent.Wlavm.Start.{
  create_signature_with_tpm, sign_instance_trust_report, create_instance_trust_report,
  report_and_associate, start_vm,
}
use workload_agent.World.{Env, Call, write_file, wls_post_vm_report}
use workload_agent.World.Keeps.{
  Keeps, Emitted, Emits, Keeps-Emits, Keeps-body, Keeps-bind, Emitted-invoke, keeps_rules,
}

-- The calls that `Start` may make: the association file alone is written, with mode 0600.
abbrev pub MayStart : Call → Type 0
MayStart (write_file p text n) = (p ≡ image_vm_association_file_path) × (n ≡ 0o600)
MayStart (wls_post_vm_report report) = Unit
MayStart c = IsHarmless c

safe : (c : Call) → IsHarmless c → MayStart c
safe (write_file p t n) h = absurd h
safe (wls_post_vm_report report) h = absurd h
safe _ h = h

module _ (env : Env) (t : List Call) where
  ruleset rules = (
    keeps_rules, Emitted-invoke, safe, discard-Emitted, flavor_key-Emitted, tpm-Emitted,
    domain_parser-Emitted, signing_key-Emitted, signing_cert-Emitted, create-Emitted, post-Emitted,
  )

  signature-Emitted :
      (contents : Bytes) → Keeps (Emitted MayStart t) (create_signature_with_tpm env contents)
  unfolding create_signature_with_tpm
  signature-Emitted contents =
      Keeps-body _
        (Keeps-bind _ _ (search rules depth 20) λ key_file. search rules depth 60 fits 3000)

  sign_report-Emitted :
      (report : Handle) → Keeps (Emitted MayStart t) (sign_instance_trust_report env report)
  unfolding sign_instance_trust_report
  sign_report-Emitted report = search (rules, signature-Emitted) depth 40

  trust_report-Emitted :
      (manifest flavor : Handle) (signature : String)
      → Keeps (Emitted MayStart t) (create_instance_trust_report env manifest flavor signature)
  unfolding create_instance_trust_report
  trust_report-Emitted manifest flavor signature = search (rules, sign_report-Emitted) depth 40

  start_vm-Emitted : (xml : String) → Keeps (Emitted MayStart t) (start_vm env xml)
  unfolding start_vm report_and_associate
  start_vm-Emitted xml = search (rules, trust_report-Emitted) depth 60 fits 3000

-- `Start` writes no file but the association file, which it writes with mode 0600; it creates,
-- mounts, unmounts and closes no volume and runs no command, however it ends.
pub start_vm-MayStart : (env : Env) (xml : String) → Emits MayStart (start_vm env xml)
start_vm-MayStart env xml = Keeps-Emits (start_vm env xml) (λ t. start_vm-Emitted env t xml)
