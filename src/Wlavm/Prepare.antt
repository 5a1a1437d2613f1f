-- ===== src/Wlavm/Prepare.antt =====
-- wlavm/prepare.go: `Prepare`, in the order of its steps.
pub mod Skipping
use workload_agent.Prelude.{
  String, ◌<>◌, Bool, true, false, not, ◌&&◌, ◌||◌, ◌==◌, [], Option, none, some, str_eq,
  starts_with, is_empty, if◌then◌else◌,
}
use workload_agent.Prelude.Strings.{fields}
use workload_agent.Association.{image_path_from_vm_association_file}
use workload_agent.Clients.{get_image_flavor_key}
use workload_agent.Consts.{
  mount_path, qemu_img_util_path, qemu_img_info_backing_file_field, qemu_img_info_file_format_field,
  get_img_info_cmd, create_vm_disk_cmd, resize_vm_disk_cmd,
}
use workload_agent.Libvirt.{DomainParser, new_domain_parser, prepare}
use workload_agent.Tpm.{unwrap_key}
use workload_agent.Types.{Result, ok, err, failed, Bytes, StatResult, found, missing, unreadable}
use workload_agent.World.{
  Env, readlink, stat, execute_command, encryption_header_exists, hardware_uuid, lock, unlock,
  tpm_mtx,
}
use workload_agent.World.Go.{
  Func, Go, ◌>>=◌, ◌>>◌, pure, return, panic, call, body, invoke, when, value_or, nil_or,
}
use workload_agent.Wlavm.Image.{image_volume_manager}
use workload_agent.Wlavm.QemuImg.{scan_field, scan_disk_info}
use workload_agent.Wlavm.Volume.{vm_volume_manager}

-- The path that `os.Readlink` returns, empty beside an error.
abbrev link_or_empty : Result String → String
link_or_empty (ok path) = path
link_or_empty (err e) = ""

-- `statErr != nil || stat.Size() == 0`
abbrev lacks_content : StatResult → Bool
lacks_content (found info) = info.size == 0
lacks_content missing = true
lacks_content (unreadable e) = true

-- `err == nil && !isImageDecrypted`
abbrev has_no_header : Result Bool → Bool
has_no_header (ok encrypted) = not encrypted
has_no_header (err e) = false

-- The result of a loop that may panic.
abbrev pub or_panic {ℓ} : {A : Type ℓ} → Option A → Go Bool A
or_panic none = panic
or_panic (some a) = pure a

module _ (env : Env) where
  -- `exec.ExecuteCommand(consts.QemuImgUtilPath, strings.Fields(command))`, and `return false` on
  -- an error.
  unfoldable pub qemu_img : String → Go Bool String
  qemu_img command = do
    result ← invoke env (execute_command qemu_img_util_path (fields command))
    nil_or result.error λ e. false
    pure result.output

  -- Step 1: the image path, from the VM's disk unless that is a symlink.
  unfoldable pub discover_backing_file : Bool → String → String → Go Bool String
  discover_backing_file must_recreate_vm_disk vm_path image_path =
      if must_recreate_vm_disk
      then (do
        output ← qemu_img (get_img_info_cmd vm_path)
        pure (scan_field qemu_img_info_backing_file_field output image_path))
      else pure image_path

  -- An empty image path is looked up in the association file.
  unfoldable pub resolve_image_path : String → String → Go Bool String
  resolve_image_path image_uuid image_path =
      if str_eq image_path ""
      then (do
        associated ← call (image_path_from_vm_association_file env image_uuid)
        when (str_eq associated "") (return false)
        pure associated)
      else pure image_path

  -- Whether the dm-crypt volume of the image can be skipped. The header test reads `image_path`.
  unfoldable pub is_already_decrypted : String → String → Go Bool Bool
  is_already_decrypted decrypted_image_path image_path = do
    image_file ← invoke env (stat decrypted_image_path)
    if lacks_content image_file then pure false else (do
      header ← invoke env (encryption_header_exists image_path)
      pure (has_no_header header))

  -- The key is unwrapped under `TpmMtx`, and the image decrypted with it. The result is the file
  -- format of the decrypted image; the key is a variable of this block alone.
  unfoldable pub open_image : DomainParser → String → String → Bytes → Bool → Go Bool String
  open_image d image_path decrypted_image_path tpm_wrapped_key skip_image_volume_creation = do
    invoke env (lock tpm_mtx)
    unwrapped ← call (unwrap_key env tpm_wrapped_key)
    invoke env (unlock tpm_mtx)
    nil_or unwrapped.1 λ e. false
    if skip_image_volume_creation then pure "" else (do
      managed ← call (image_volume_manager env d.image_uuid image_path d.size unwrapped.0)
      nil_or managed λ e. false
      output ← qemu_img (get_img_info_cmd decrypted_image_path)
      pure (scan_field qemu_img_info_file_format_field output ""))

  -- Step 3.1 for an encrypted image: the path of the decrypted image and its file format.
  unfoldable pub decrypt_image : DomainParser → String → Go Bool (String × String)
  decrypt_image d image_path = do
    let decrypted_image_path = mount_path <> (d.image_uuid <> ("/" <> d.image_uuid))
    skip_image_volume_creation ← is_already_decrypted decrypted_image_path image_path
    hardware ← invoke env hardware_uuid
    uuid ← value_or hardware λ e. false
    received ← call (get_image_flavor_key env d.image_uuid uuid)
    nil_or received.1 λ e. false
    let flavor_key_info = received.0
    when (str_eq flavor_key_info.meta_id "") (return false)
    if flavor_key_info.encryption_required
        then (do
          when (is_empty flavor_key_info.key) (return false)
          format ←
              open_image d image_path decrypted_image_path flavor_key_info.key
                skip_image_volume_creation
          pure (decrypted_image_path, format))
        else pure (decrypted_image_path, "")

  -- Steps 3.3 to 3.5: the VM's disk is created again over the decrypted image, at its old size.
  unfoldable pub recreate_vm_disk : String → String → String → String → Go Bool (Unit {0})
  recreate_vm_disk vm_path image_path decrypted_image_path vm_back_file_format = do
    output ← qemu_img (get_img_info_cmd vm_path)
    info ← or_panic (
        scan_disk_info output
          (record { image_path = image_path; vm_virtual_size = ""; vm_virtual_format = "" }))
    qemu_img
        (create_vm_disk_cmd info.vm_virtual_format decrypted_image_path vm_back_file_format vm_path)
    qemu_img (resize_vm_disk_cmd vm_path info.vm_virtual_size)
    pure tt

  -- Step 4: the volume of the VM. `key` is the outer variable, which nothing has assigned.
  unfoldable pub prepare_vm_disk :
      DomainParser → Bool → String → String → String → Go Bool (Unit {0})
  prepare_vm_disk d must_recreate_vm_disk image_path decrypted_image_path vm_back_file_format = do
    let key : Bytes = []
    linked ← invoke env (readlink d.vm_path)
    target ← invoke env (stat (link_or_empty linked))
    when ((failed linked || lacks_content target) && must_recreate_vm_disk)
        (recreate_vm_disk d.vm_path image_path decrypted_image_path vm_back_file_format)
    managed ← call (vm_volume_manager env d.vm_uuid d.vm_path d.size key)
    nil_or managed λ e. false

  -- `Prepare` of a parsed domain.
  unfoldable pub prepare_domain : DomainParser → Go Bool Bool
  prepare_domain d = do
    linked ← invoke env (readlink d.vm_path)
    let must_recreate_vm_disk = failed linked
    discovered ← discover_backing_file must_recreate_vm_disk d.vm_path d.image_path
    image_path ← resolve_image_path d.image_uuid discovered
    let is_vm_launch_from_encrypted_image = starts_with image_path mount_path
    header ← invoke env (encryption_header_exists image_path)
    is_image_encrypted ← value_or header λ e. false
    decrypted ← (if is_image_encrypted then decrypt_image d image_path else pure ("", ""))
    when (is_vm_launch_from_encrypted_image || is_image_encrypted)
        (prepare_vm_disk d must_recreate_vm_disk image_path decrypted.0 decrypted.1)
    return true

  -- `Prepare`
  unfoldable pub prepare_vm : String → Func Bool
  prepare_vm domain_xml_content = body do
    parsed ← call (new_domain_parser env domain_xml_content prepare)
    d ← value_or parsed λ e. false
    prepare_domain d
