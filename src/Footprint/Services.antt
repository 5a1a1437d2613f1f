-- ===== src/Footprint/Services.antt =====
-- The packages below wlavm, for any property `Q` of calls that the harmless calls have.
use workload_agent.Prelude.{String, false, List}
use workload_agent.Types.{Bytes, Handler}
use workload_agent.Association.{
  Association, image_vm_association_file_path as path, load_image_vm_association,
  save_image_vm_association, create, delete, image_path_from_vm_association_file,
}
use workload_agent.Clients.{get_image_flavor_key, post_vm_report}
use workload_agent.Config.{
  get_file_content_from_config_dir, get_signing_key_from_file, get_signing_cert_from_file,
}
use workload_agent.Filewatch.{handle_event}
use workload_agent.Libvirt.{new_domain_parser, QemuIntercept}
use workload_agent.Tpm.{get_tpm_instance, unwrap_key}
use workload_agent.World.{
  Env, Call, mkdir_all, chmod, remove_all, open_file, open_append, open_existing,
  yaml_encode_config, write_file, symlink, lchown, chown_r, execute_command, create_volume,
  delete_volume, unmount, mount, wls_post_vm_report, watcher_add, new_aes_cipher, add_task,
  task_done, chown, write_string, pem_encode, remove, run_command,
}
use workload_agent.World.Go.{discard}
use workload_agent.World.Keeps.{
  Keeps, Emitted, Emitted-call, Emitted-invoke, Emitted-modify, keeps_rules,
}

-- A call that writes no file, runs no command, changes no volume or mount, watches no file,
-- posts no report and gives AES no key, and that
-- begins and ends no task.
abbrev pub IsHarmless : Call → Type 0
IsHarmless (mkdir_all p n) = ⊥
IsHarmless (chmod p n) = ⊥
IsHarmless (remove_all p) = ⊥
IsHarmless (open_file p b n) = ⊥
IsHarmless (write_file p t n) = ⊥
IsHarmless (open_append p n) = ⊥
IsHarmless (open_existing p) = ⊥
IsHarmless (yaml_encode_config p c) = ⊥
IsHarmless (symlink p q) = ⊥
IsHarmless (lchown p u g) = ⊥
IsHarmless (chown_r p u g) = ⊥
IsHarmless (chown p u g) = ⊥
IsHarmless (write_string p text) = ⊥
IsHarmless (pem_encode p kind text) = ⊥
IsHarmless (remove p) = ⊥
IsHarmless (run_command name seconds) = ⊥
IsHarmless (execute_command p l) = ⊥
IsHarmless (create_volume p q k n) = ⊥
IsHarmless (delete_volume p) = ⊥
IsHarmless (unmount p) = ⊥
IsHarmless (mount p q) = ⊥
IsHarmless (wls_post_vm_report t) = ⊥
IsHarmless (watcher_add p) = ⊥
IsHarmless (new_aes_cipher key) = ⊥
IsHarmless (add_task quits) = ⊥
IsHarmless task_done = ⊥
IsHarmless c = Unit

module _ (env : Env) {Q : Call → Type 0} {t : List Call}
    (safe : (c : Call) → IsHarmless c → Q c) where
  pub discard-Emitted : (c : Call) → IsHarmless c → Keeps (Emitted Q t) (discard env c)
  unfolding discard
  discard-Emitted c h = record { at = λ s all. Emitted-call env c s (safe c h) all }

  pub tpm-Emitted : Keeps (Emitted Q t) (get_tpm_instance env)
  unfolding get_tpm_instance
  tpm-Emitted = search (keeps_rules, Emitted-invoke, safe) depth 40

  pub unwrap_key-Emitted : (wrapped : Bytes) → Keeps (Emitted Q t) (unwrap_key env wrapped)
  unfolding unwrap_key
  unwrap_key-Emitted wrapped =
      search (keeps_rules, Emitted-invoke, discard-Emitted, tpm-Emitted, safe) depth 40

  pub flavor_key-Emitted :
      (image hardware : String) → Keeps (Emitted Q t) (get_image_flavor_key env image hardware)
  unfolding get_image_flavor_key
  flavor_key-Emitted image hardware = search (keeps_rules, Emitted-invoke, safe) depth 40

  pub domain_parser-Emitted :
      (xml : String) (intercept : QemuIntercept)
      → Keeps (Emitted Q t) (new_domain_parser env xml intercept)
  unfolding new_domain_parser
  domain_parser-Emitted xml intercept = search (keeps_rules, Emitted-invoke, safe) depth 40

  config_file-Emitted :
      (name : String) → Keeps (Emitted Q t) (get_file_content_from_config_dir env name)
  unfolding get_file_content_from_config_dir
  config_file-Emitted name = search (keeps_rules, Emitted-invoke, safe) depth 40

  pub signing_key-Emitted : Keeps (Emitted Q t) (get_signing_key_from_file env)
  unfolding get_signing_key_from_file
  signing_key-Emitted = config_file-Emitted _

  pub signing_cert-Emitted : Keeps (Emitted Q t) (get_signing_cert_from_file env)
  unfolding get_signing_cert_from_file
  signing_cert-Emitted = search (keeps_rules, config_file-Emitted) depth 40

  pub handle_event-Emitted :
      (file : String) (handler : Handler)
      → Q (watcher_add file)
      → Keeps (Emitted Q t) (handle_event env file handler)
  unfolding handle_event
  handle_event-Emitted file handler q =
      search (keeps_rules, Emitted-invoke, Emitted-modify, safe) depth 40

  pub path-Emitted :
      Q (open_file path false 0o600)
      → (uuid : String) → Keeps (Emitted Q t) (image_path_from_vm_association_file env uuid)
  unfolding image_path_from_vm_association_file load_image_vm_association
  path-Emitted q uuid =
      search (keeps_rules, Emitted-invoke, Emitted-modify, discard-Emitted, safe) depth 40

  -- The association file is written with mode 0600, whatever its text.
  module _ (saves : (text : Bytes) → Q (write_file path text 0o600)) where
    pub save-Emitted : Keeps (Emitted Q t) (save_image_vm_association env)
    unfolding save_image_vm_association
    save-Emitted = search (keeps_rules, Emitted-invoke, discard-Emitted, safe, saves) depth 40

    pub create-Emitted : (a : Association) → Keeps (Emitted Q t) (create env a)
    unfolding create
    create-Emitted a =
        search (keeps_rules, Emitted-invoke, Emitted-modify, save-Emitted, safe) depth 40

    pub delete-Emitted : (a : Association) → Keeps (Emitted Q t) (delete env a)
    unfolding delete
    delete-Emitted a =
        search (keeps_rules, Emitted-invoke, Emitted-modify, save-Emitted, safe) depth 40

  pub post-Emitted :
      (report : Bytes)
      → Q (wls_post_vm_report report)
      → Keeps (Emitted Q t) (post_vm_report env report)
  unfolding post_vm_report
  post-Emitted report q = search (keeps_rules, Emitted-invoke, safe) depth 40
