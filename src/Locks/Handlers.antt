-- ===== src/Locks/Handlers.antt =====
-- The locks of wlavm/prepare.go, wlavm/start.go and wlavm/stop.go, and of the RPC methods.
use workload_agent.Prelude.{String, Bool, Option, none, some, List, [], ◌∷◌}
use workload_agent.Prelude.Int.{ℤ}
use workload_agent.Types.{Bytes, Handle}
use workload_agent.Association.Locks.{create-Balanced, delete-Balanced, path-Balanced}
use workload_agent.Libvirt.{DomainParser}
use workload_agent.Locks.Services.{
  tpm-Balanced, unwrap_key-Balanced, flavor_key-Balanced, post-Balanced, signing_key-Balanced,
  signing_cert-Balanced, domain_parser-Balanced, handle_event-Balanced,
}
use workload_agent.Rpc
use workload_agent.Wlavm.Image.{decrypt_image_file, image_volume_manager}
use workload_agent.Wlavm.Prepare.{
  qemu_img, discover_backing_file, resolve_image_path, is_already_decrypted, open_image,
  decrypt_image, or_panic, recreate_vm_disk, prepare_vm_disk, prepare_domain, prepare_vm,
}
use workload_agent.Wlavm.Start.{
  create_signature_with_tpm, sign_instance_trust_report, create_instance_trust_report,
  report_and_associate, start_vm,
}
use workload_agent.Wlavm.Stop.{
  is_vm_volume_encrypted, close_volume, close_image, stop_domain, stop_vm,
}
use workload_agent.Wlavm.Volume.{
  user_info_look_up, check_mount_path_exists_and_mount_volume, create_sym_link_and_change_ownership,
  vm_volume_manager,
}
use workload_agent.World.{Env, Mutex, wla_mtx}
use workload_agent.World.Go.{Go}
use workload_agent.World.Locks.{Balanced, Locks, Locks-panic, Locks-pure, locks_rules}

ruleset services = (
  locks_rules, tpm-Balanced, unwrap_key-Balanced, flavor_key-Balanced, post-Balanced,
  signing_key-Balanced, signing_cert-Balanced, domain_parser-Balanced, handle_event-Balanced,
  create-Balanced, delete-Balanced, path-Balanced,
)

module _ (env : Env) where
  signature-Balanced : (contents : Bytes) → Balanced [] (create_signature_with_tpm env contents)
  unfolding create_signature_with_tpm
  signature-Balanced contents = search services depth 60 fits 3000

  sign_report-Balanced : (report : Handle) → Balanced [] (sign_instance_trust_report env report)
  unfolding sign_instance_trust_report
  sign_report-Balanced report = search (services, signature-Balanced) depth 60 fits 3000

  trust_report-Balanced :
      (manifest flavor : Handle) (signature : String)
      → Balanced [] (create_instance_trust_report env manifest flavor signature)
  unfolding create_instance_trust_report
  trust_report-Balanced manifest flavor signature =
      search (services, sign_report-Balanced) depth 60 fits 3000

  start_vm-Balanced : (xml : String) → Balanced [] (start_vm env xml)
  unfolding start_vm report_and_associate
  start_vm-Balanced xml = search (services, trust_report-Balanced) depth 60 fits 3000

  stop_vm-Balanced : (xml : String) → Balanced (wla_mtx ∷ []) (stop_vm env xml)
  unfolding stop_vm stop_domain is_vm_volume_encrypted close_volume close_image
  stop_vm-Balanced xml = search services depth 60 fits 3000

  user_info-Balanced : {l : List Mutex} (name : String) → Balanced l (user_info_look_up env name)
  unfolding user_info_look_up
  user_info-Balanced name = search services depth 40

  check_mount-Balanced :
      {l : List Mutex} (mount_point device file : String)
      → Balanced l (check_mount_path_exists_and_mount_volume env mount_point device file)
  unfolding check_mount_path_exists_and_mount_volume
  check_mount-Balanced mount_point device file = search (services, user_info-Balanced) depth 40

  sym_link-Balanced :
      {l : List Mutex} (target source mount_point : String)
      → Balanced l (create_sym_link_and_change_ownership env target source mount_point)
  unfolding create_sym_link_and_change_ownership
  sym_link-Balanced target source mount_point = search (services, user_info-Balanced) depth 40

  vm_volume-Balanced :
      (vm_uuid vm_path : String) (size : ℤ) (key : Bytes)
      → Balanced (wla_mtx ∷ []) (vm_volume_manager env vm_uuid vm_path size key)
  unfolding vm_volume_manager
  vm_volume-Balanced vm_uuid vm_path size key =
      search (services, check_mount-Balanced, sym_link-Balanced) depth 60 fits 3000

  decrypt_file-Locks :
      {l : List Mutex} (image_uuid image_path mount_point : String) (key : Bytes)
      → Locks l l l (decrypt_image_file env image_uuid image_path mount_point key)
  unfolding decrypt_image_file
  decrypt_file-Locks image_uuid image_path mount_point key =
      search (services, user_info-Balanced) depth 60 fits 3000

  image_volume-Balanced :
      (image_uuid image_path : String) (size : ℤ) (key : Bytes)
      → Balanced (wla_mtx ∷ []) (image_volume_manager env image_uuid image_path size key)
  unfolding image_volume_manager
  image_volume-Balanced image_uuid image_path size key =
      search (services, check_mount-Balanced, decrypt_file-Locks) depth 60 fits 3000

  or_panic-Locks {ℓ} :
      {A : Type ℓ} {l e : List Mutex} (found : Option A) → Locks l e l (or_panic found)
  or_panic-Locks none = Locks-panic
  or_panic-Locks (some a) = Locks-pure a

  ruleset prepare_rules = (services, vm_volume-Balanced, image_volume-Balanced, or_panic-Locks)

  abbrev KeepsLocks {κ} : {A : Type κ} → Go Bool A → Type κ
  KeepsLocks m = Locks (wla_mtx ∷ []) (wla_mtx ∷ []) (wla_mtx ∷ []) m

  open_image-Locks :
      (d : DomainParser) (image_path decrypted : String) (wrapped : Bytes) (skip : Bool)
      → KeepsLocks (open_image env d image_path decrypted wrapped skip)
  unfolding open_image qemu_img
  open_image-Locks d image_path decrypted wrapped skip = search prepare_rules depth 60 fits 3000

  decrypt_image-Locks :
      (d : DomainParser) (image_path : String) → KeepsLocks (decrypt_image env d image_path)
  unfolding decrypt_image is_already_decrypted
  decrypt_image-Locks d image_path = search (prepare_rules, open_image-Locks) depth 60 fits 3000

  prepare_vm_disk-Locks :
      (d : DomainParser) (recreate : Bool) (image_path decrypted format : String)
      → KeepsLocks (prepare_vm_disk env d recreate image_path decrypted format)
  unfolding prepare_vm_disk recreate_vm_disk qemu_img
  prepare_vm_disk-Locks d recreate image_path decrypted format =
      search prepare_rules depth 60 fits 3000

  prepare_vm-Balanced : (xml : String) → Balanced (wla_mtx ∷ []) (prepare_vm env xml)
  unfolding prepare_vm prepare_domain discover_backing_file resolve_image_path qemu_img
  prepare_vm-Balanced xml =
      search (prepare_rules, decrypt_image-Locks, prepare_vm_disk-Locks) depth 60 fits 3000

  -- The RPC method `Start` returns with no mutex held, takes none that it holds, and unlocks none
  -- that it does not hold.
  pub start-Balanced : (xml : String) (reply : Bool) → Balanced [] (Rpc.start env xml reply)
  unfolding Rpc.start
  start-Balanced xml reply = search (services, start_vm-Balanced) depth 40

  -- So does the RPC method `Prepare`.
  pub prepare-Balanced : (xml : String) (reply : Bool) → Balanced [] (Rpc.prepare env xml reply)
  unfolding Rpc.prepare
  prepare-Balanced xml reply = search (services, prepare_vm-Balanced) depth 40

  -- So does the RPC method `Stop`.
  pub stop-Balanced : (xml : String) (reply : Bool) → Balanced [] (Rpc.stop env xml reply)
  unfolding Rpc.stop
  stop-Balanced xml reply = search (services, stop_vm-Balanced) depth 40
