-- ===== src/Locks/Services.antt =====
-- The locks of the packages below wlavm: the TPM, the Workload Service, the configuration files,
-- the file watcher and the domain parser. Only the watcher takes a lock.
use workload_agent.Prelude.{String, false, ◌≡◌, List}
use workload_agent.Types.{Bytes, Handler}
use workload_agent.World.{Env, Mutex, watcher_mtx}
use workload_agent.World.Locks.{Balanced, holds, locks_rules, Locks-modify}
use workload_agent.Tpm.{get_tpm_instance, unwrap_key}
use workload_agent.Clients.{get_image_flavor_key, post_vm_report}
use workload_agent.Config.{
  get_file_content_from_config_dir, get_signing_key_from_file, get_signing_cert_from_file,
}
use workload_agent.Filewatch.{handle_event}
use workload_agent.Libvirt.{new_domain_parser, QemuIntercept}

module _ (env : Env) {l : List Mutex} where
  pub tpm-Balanced : Balanced l (get_tpm_instance env)
  unfolding get_tpm_instance
  tpm-Balanced = search locks_rules depth 40

  pub unwrap_key-Balanced : (wrapped : Bytes) → Balanced l (unwrap_key env wrapped)
  unfolding unwrap_key
  unwrap_key-Balanced wrapped = search (locks_rules, tpm-Balanced) depth 40

  pub flavor_key-Balanced :
      (image hardware : String) → Balanced l (get_image_flavor_key env image hardware)
  unfolding get_image_flavor_key
  flavor_key-Balanced image hardware = search locks_rules depth 40

  pub post-Balanced : (report : Bytes) → Balanced l (post_vm_report env report)
  unfolding post_vm_report
  post-Balanced report = search locks_rules depth 40

  config_file-Balanced : (name : String) → Balanced l (get_file_content_from_config_dir env name)
  unfolding get_file_content_from_config_dir
  config_file-Balanced name = search locks_rules depth 40

  pub signing_key-Balanced : Balanced l (get_signing_key_from_file env)
  unfolding get_signing_key_from_file
  signing_key-Balanced = config_file-Balanced _

  pub signing_cert-Balanced : Balanced l (get_signing_cert_from_file env)
  unfolding get_signing_cert_from_file
  signing_cert-Balanced = search (locks_rules, config_file-Balanced) depth 40

  pub domain_parser-Balanced :
      (xml : String) (intercept : QemuIntercept) → Balanced l (new_domain_parser env xml intercept)
  unfolding new_domain_parser
  domain_parser-Balanced xml intercept = search locks_rules depth 40

  pub handle_event-Balanced :
      holds watcher_mtx l ≡ false
      → (file : String) (handler : Handler) → Balanced l (handle_event env file handler)
  unfolding handle_event
  handle_event-Balanced free file handler = search (locks_rules, Locks-modify) depth 40
