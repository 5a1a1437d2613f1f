-- ===== src/Footprint/Prepare.antt =====
-- What `Prepare` of a domain touches (wlavm/prepare.go).
use workload_agent.Prelude.{
  List, String, ◌<>◌, ◌≡◌, ◌⊎◌, inl, inr, Bool, true, false, Option, none, some, [], ◌∷◌,
}
use workload_agent.Prelude.Int.{ℤ}
use workload_agent.Prelude.Strings.{replace}
use workload_agent.Association.{image_vm_association_file_path}
use workload_agent.Consts.{mount_path, dev_mapper_dir_path, qemu_img_util_path}
use workload_agent.Footprint.Services.{
  IsHarmless, discard-Emitted, unwrap_key-Emitted, flavor_key-Emitted, handle_event-Emitted,
  path-Emitted,
}
use workload_agent.Libvirt.{DomainParser}
use workload_agent.Types.{Bytes}
use workload_agent.Wlavm.Image.{decrypt_image_file, image_volume_manager}
use workload_agent.Wlavm.Prepare.{
  qemu_img, discover_backing_file, resolve_image_path, is_already_decrypted, open_image,
  decrypt_image, or_panic, recreate_vm_disk, prepare_vm_disk, prepare_domain,
}
use workload_agent.Wlavm.Volume.{
  user_info_look_up, check_mount_path_exists_and_mount_volume, create_sym_link_and_change_ownership,
  vm_volume_manager,
}
use workload_agent.World.{
  Env, State, Call, mkdir_all, chmod, remove_all, open_file, write_file, symlink, lchown, chown_r,
  execute_command, create_volume, mount, watcher_add,
}
use workload_agent.World.Keeps.{
  Keeps, Emits, Keeps-Emits, Keeps-body, Keeps-bind, Emitted, Emits, Keeps-Emits, Keeps-body,
  Keeps-bind, Emitted-invoke, Keeps-panic, Keeps-pure, keeps_rules,
}

module _ (d : DomainParser) where
  abbrev image_device : String
  image_device = dev_mapper_dir_path <> d.image_uuid

  abbrev image_mount : String
  image_mount = mount_path <> d.image_uuid

  abbrev decrypted_image : String
  decrypted_image = image_mount <> ("/" <> d.image_uuid)

  abbrev vm_device : String
  vm_device = dev_mapper_dir_path <> d.vm_uuid

  abbrev vm_mount : String
  vm_mount = mount_path <> d.vm_uuid

  abbrev vm_disk : String
  vm_disk = vm_mount <> "/disk"

  -- The calls that `Prepare` may make.
  abbrev pub MayPrepare : Call → Type 0
  MayPrepare (create_volume sparse device key size) =
      ((device ≡ image_device) × (size ≡ d.size))
      ⊎ ((device ≡ vm_device)
          × (sparse ≡ replace d.vm_path "disk" (d.vm_uuid <> "_sparse"))
          × (key ≡ [])
          × (size ≡ d.size))
  MayPrepare (mount device point) =
      ((device ≡ image_device) × (point ≡ image_mount))
      ⊎ ((device ≡ vm_device) × (point ≡ vm_mount))
  MayPrepare (mkdir_all p n) = (p ≡ image_mount) ⊎ (p ≡ vm_mount)
  MayPrepare (chown_r p u g) = (p ≡ image_mount) ⊎ (p ≡ vm_mount)
  MayPrepare (open_file p truncates n) =
      ((p ≡ image_vm_association_file_path) × (truncates ≡ false))
      ⊎ ((p ≡ decrypted_image) ⊎ (p ≡ vm_disk))
  MayPrepare (write_file p text n) = p ≡ decrypted_image
  MayPrepare (chmod p n) = (p ≡ decrypted_image) ⊎ (p ≡ vm_disk)
  MayPrepare (remove_all p) = p ≡ d.vm_path
  MayPrepare (symlink target p) = (target ≡ vm_disk) × (p ≡ d.vm_path)
  MayPrepare (lchown p u g) = p ≡ d.vm_path
  MayPrepare (execute_command name args) =
      (name ≡ qemu_img_util_path) ⊎ ((name ≡ "cp") × (args ≡ d.vm_path ∷ vm_mount ∷ []))
  MayPrepare (watcher_add p) = p ≡ replace d.vm_path "disk" "disk.info"
  MayPrepare c = IsHarmless c

  safe : (c : Call) → IsHarmless c → MayPrepare c
  safe (mkdir_all p n) h = absurd h
  safe (chmod p n) h = absurd h
  safe (remove_all p) h = absurd h
  safe (open_file p b n) h = absurd h
  safe (write_file p t n) h = absurd h
  safe (symlink p q) h = absurd h
  safe (lchown p u g) h = absurd h
  safe (chown_r p u g) h = absurd h
  safe (execute_command p l) h = absurd h
  safe (create_volume p q k n) h = absurd h
  safe (mount p q) h = absurd h
  safe (watcher_add p) h = absurd h
  safe _ h = h

module _ (env : Env) (d : DomainParser) (t : List Call) where
  abbrev Stays {ℓ} : {X : Type ℓ} → (State → X × State) → Type ℓ
  Stays m = Keeps (Emitted (MayPrepare d) t) m

  ruleset rules = (
    keeps_rules, Emitted-invoke, safe, discard-Emitted, unwrap_key-Emitted, flavor_key-Emitted,
    handle_event-Emitted, path-Emitted, inl, inr,
  )

  user_info-Emitted : (name : String) → Stays (user_info_look_up env name)
  unfolding user_info_look_up
  user_info-Emitted name = search rules depth 40

  check_mount_of-Emitted :
      (mount_point device file : String)
      → MayPrepare d (mkdir_all mount_point 0o655)
      → MayPrepare d (open_file (mount_point <> ("/" <> file)) true 0o664)
      → ((u g : ℤ) → MayPrepare d (chown_r mount_point u g))
      → MayPrepare d (mount device mount_point)
      → Stays (check_mount_path_exists_and_mount_volume env mount_point device file)
  unfolding check_mount_path_exists_and_mount_volume
  check_mount_of-Emitted mount_point device file makes opens owns mounts =
      search (rules, user_info-Emitted) depth 40

  sym_link-Emitted :
      Stays (create_sym_link_and_change_ownership env (vm_disk d) d.vm_path (vm_mount d))
  unfolding create_sym_link_and_change_ownership
  sym_link-Emitted = search (rules, user_info-Emitted) depth 40

  vm_volume-Emitted : Stays (vm_volume_manager env d.vm_uuid d.vm_path d.size [])
  unfolding vm_volume_manager
  vm_volume-Emitted = Keeps-body _ (
      Keeps-bind _ _ (search rules depth 20) λ sparse. Keeps-bind _ _ (search rules depth 20) λ u.
        Keeps-bind _ _ (search rules depth 20)
          λ create_err. search (rules, check_mount_of-Emitted, sym_link-Emitted) depth 40)

  decrypt_file-Emitted :
      (image_path : String) (key : Bytes)
      → Stays (decrypt_image_file env d.image_uuid image_path (image_mount d) key)
  unfolding decrypt_image_file
  decrypt_file-Emitted image_path key = search (rules, user_info-Emitted) depth 40

  image_volume-Emitted :
      (image_path : String) (key : Bytes)
      → Stays (image_volume_manager env d.image_uuid image_path d.size key)
  unfolding image_volume_manager
  image_volume-Emitted image_path key =
      search (rules, check_mount_of-Emitted, decrypt_file-Emitted) depth 40

  or_panic-Emitted {ℓ} : {A : Type ℓ} (found : Option A) → Stays (or_panic found)
  or_panic-Emitted none = Keeps-panic
  or_panic-Emitted (some a) = Keeps-pure a

  qemu_img-Emitted : (command : String) → Stays (qemu_img env command)
  unfolding qemu_img
  qemu_img-Emitted command = search rules depth 40

  open_image-Emitted :
      (image_path decrypted : String) (wrapped : Bytes) (skip : Bool)
      → Stays (open_image env d image_path decrypted wrapped skip)
  unfolding open_image
  open_image-Emitted image_path decrypted wrapped skip =
      search (rules, image_volume-Emitted, qemu_img-Emitted) depth 40

  decrypt_image-Emitted : (image_path : String) → Stays (decrypt_image env d image_path)
  unfolding decrypt_image is_already_decrypted
  decrypt_image-Emitted image_path = search (rules, open_image-Emitted) depth 40

  prepare_vm_disk-Emitted :
      (recreate : Bool) (image_path decrypted format : String)
      → Stays (prepare_vm_disk env d recreate image_path decrypted format)
  unfolding prepare_vm_disk recreate_vm_disk
  prepare_vm_disk-Emitted recreate image_path decrypted format =
      search (rules, qemu_img-Emitted, or_panic-Emitted, vm_volume-Emitted) depth 40

  prepare-Emitted : Keeps (Emitted (MayPrepare d) t) (prepare_domain env d)
  unfolding prepare_domain discover_backing_file resolve_image_path
  prepare-Emitted =
      search (rules, qemu_img-Emitted, decrypt_image-Emitted, prepare_vm_disk-Emitted) depth 40

module _ (env : Env) (d : DomainParser) where
  -- `Prepare` of a domain creates only the volumes of its image and its VM, and the VM's with an
  -- empty key; it mounts only those, writes and changes only the decrypted image, the VM's disk,
  -- its mount points and the association file, removes only the VM's disk, runs only qemu-img
  -- and one copy of the disk, and closes no volume.
  pub prepare-MayPrepare : Emits (MayPrepare d) (prepare_domain env d)
  prepare-MayPrepare = Keeps-Emits (prepare_domain env d) (prepare-Emitted env d)
