-- ===== src/Wlavm/Volume.antt =====
-- wlavm/prepare.go: mount points of dm-crypt volumes, the symlink to a VM's disk, and the volume of
-- a VM.
pub mod Links
use workload_agent.Prelude.{String, ◌<>◌, [], ◌∷◌, none, some, true, not, if◌then◌else◌}
use workload_agent.Prelude.Int.{ℤ, pos}
use workload_agent.Prelude.Strings.{contains, replace}
use workload_agent.Consts.{mount_path, dev_mapper_dir_path}
use workload_agent.Config.{is_not_exist}
use workload_agent.Filewatch.{handle_event}
use workload_agent.Types.{Err, Bytes, remove_mount_path}
use workload_agent.World.{
  Env, user_lookup, mkdir_all, open_file, close, chown_r, mount, remove_all, symlink, lchown, chmod,
  stat, lock, unlock, vm_volume_mtx, create_volume, execute_command,
}
use workload_agent.World.Go.{
  Func, ◌>>=◌, ◌>>◌, return, call, deferring, body, invoke, when, value_or, nil_or, discard,
}

module _ (env : Env) where
  -- `userInfoLookUp`
  unfoldable pub user_info_look_up : String → Func ((ℤ × ℤ) × Err)
  user_info_look_up user_name = body do
    looked_up ← invoke env (user_lookup user_name)
    user_info ← value_or looked_up λ e. (
      (pos 0, pos 0),
      env.wrap (some e)
          "wlavm/prepare:userInfoLookUp() error trying to look up qemu userID and groupID",
    )
    return ((env.atoi user_info.uid, env.atoi user_info.gid), none)

  -- `checkMountPathExistsAndMountVolume`
  unfoldable pub check_mount_path_exists_and_mount_volume : String → String → String → Func Err
  check_mount_path_exists_and_mount_volume mount_point device_mapper_path empty_file_name = body do
    mkdir_err ← invoke env (mkdir_all mount_point 0o655)
    nil_or mkdir_err λ e.
        some
          "wlavm/prepare:checkMountPathExistsAndMountVolume() error while creating the mount point for the image device mapper"
    let empty_file_path = mount_point <> ("/" <> empty_file_name)
    opened ← invoke env (open_file empty_file_path true 0o664)
    nil_or opened
        λ e. some "wlavm/prepare:checkMountPathExistsAndMountVolume() error creating a sample file"
    deferring (discard env (close empty_file_path)) do
      qemu ← call (user_info_look_up "qemu")
      nil_or qemu.1 λ e. some e
      chown_err ← invoke env (chown_r mount_point qemu.0.0 qemu.0.1)
      nil_or chown_err λ e.
          some
            "wlavm/prepare:checkMountPathExistsAndMountVolume() error trying to change mount path owner to qemu"
      mount_err ← invoke env (mount device_mapper_path mount_point)
      nil_or mount_err λ e.
          if contains e "device is already mounted"
          then none
          else some
              "wlavm/prepare:checkMountPathExistsAndMountVolume() error while mounting the image device mapper"
      return none

  -- `createSymLinkAndChangeOwnership`. Where the first removal fails, `err` is still nil.
  unfoldable pub create_sym_link_and_change_ownership : String → String → String → Func Err
  create_sym_link_and_change_ownership target_file source_file mount_point = body do
    qemu ← call (user_info_look_up "qemu")
    nil_or qemu.1 λ e. some e
    rm_err ← invoke env (remove_all source_file)
    nil_or rm_err λ e. env.wrap none (
        "wlavm/prepare:createSymLinkAndChangeOwnership() error deleting the change disk: "
        <> source_file)
    link_err ← invoke env (symlink target_file source_file)
    nil_or link_err λ e.
        env.wrap (some e)
          "wlavm/prepare:createSymLinkAndChangeOwnership() error while creating symbolic link"
    lchown_err ← invoke env (lchown source_file qemu.0.0 qemu.0.1)
    nil_or lchown_err λ e.
        some
          "wlavm/prepare:createSymLinkAndChangeOwnership() error while trying to change symlink owner to qemu"
    chmod_err ← invoke env (chmod target_file 0o664)
    nil_or chmod_err λ e. env.wrap (some e) (
        "wlavm/prepare:createSymLinkAndChangeOwnership() error while giving permissions to changed disk path: "
        <> target_file)
    chown_err ← invoke env (chown_r mount_point qemu.0.0 qemu.0.1)
    nil_or chown_err λ e.
        some
          "wlavm/prepare:createSymLinkAndChangeOwnership() error trying to change mount path owner to qemu"
    return none

  -- `vmVolumeManager`
  unfoldable pub vm_volume_manager : String → String → ℤ → Bytes → Func Err
  vm_volume_manager vm_uuid vm_path size key = body do
    let vm_device_mapper_path = dev_mapper_dir_path <> vm_uuid
    let vm_sparse_file_path = replace vm_path "disk" (vm_uuid <> "_sparse")
    sparse_file ← invoke env (stat vm_sparse_file_path)
    invoke env (lock vm_volume_mtx)
    create_err ← invoke env (create_volume vm_sparse_file_path vm_device_mapper_path key size)
    invoke env (unlock vm_volume_mtx)
    nil_or create_err
        λ e. env.wrap (some e) "wlavm/prepare:vmVolumeManager() error creating vm dm-crypt volume"
    let vm_mount_path = mount_path <> vm_uuid
    mounted ←
        call (check_mount_path_exists_and_mount_volume vm_mount_path vm_device_mapper_path "disk")
    nil_or mounted λ e.
        env.wrap (some e)
          "wlavm/prepare:vmVolumeManager() error checking if mount path exists and mounting the volume"
    when (not (is_not_exist sparse_file)) (return none)
    copied ← invoke env (execute_command "cp" (vm_path ∷ vm_mount_path ∷ []))
    nil_or copied.error λ e. env.wrap (some e) (
        "wlavm/prepare:vmVolumeManager() error copying the vm path "
        <> (vm_path <> (" change disk to mount path. " <> vm_mount_path)))
    removed ← invoke env (remove_all vm_path)
    nil_or removed λ e.
        env.wrap (some e)
          ("wlavm/prepare:vmVolumeManager() error deleting the change disk: " <> vm_path)
    let change_disk_file = vm_mount_path <> "/disk"
    linked ← call (create_sym_link_and_change_ownership change_disk_file vm_path vm_mount_path)
    nil_or linked λ e.
        env.wrap (some e)
          "wlavm/prepare:vmVolumeManager() error creating a symlink and changing file ownership"
    let vm_disk_info_file = replace vm_path "disk" "disk.info"
    call (handle_event env vm_disk_info_file (remove_mount_path vm_mount_path))
    return none
