-- ===== src/Wlavm/Image.antt =====
-- wlavm/prepare.go: the dm-crypt volume of an image, and the decrypted image on it.
use workload_agent.Prelude.{String, ◌<>◌, none, some, not, if◌then◌else◌}
use workload_agent.Prelude.Int.{ℤ}
use workload_agent.Prelude.Strings.{contains}
use workload_agent.Consts.{mount_path, dev_mapper_dir_path}
use workload_agent.Config.{is_not_exist}
use workload_agent.Types.{Err, Bytes}
use workload_agent.World.{
  Env, stat, lock, unlock, img_volume_mtx, create_volume, read_file, decrypt, write_file, chmod,
  chown_r,
}
use workload_agent.World.Go.{
  Func, Go, ◌>>=◌, ◌>>◌, return, call, body, invoke, when, value_or, nil_or,
}
use workload_agent.Wlavm.Volume.{user_info_look_up, check_mount_path_exists_and_mount_volume}

module _ (env : Env) where
  -- The end of `imageVolumeManager`, for a volume that did not exist before.
  unfoldable pub decrypt_image_file : String → String → String → Bytes → Go Err Err
  decrypt_image_file image_uuid image_path image_mount_path key = do
    contents ← invoke env (read_file image_path)
    encrypted_image ←
        value_or contents
          λ e. some "wlavm/prepare:imageVolumeManager() error while reading the image file"
    decrypted ← invoke env (decrypt encrypted_image key)
    decrypted_image ←
        value_or decrypted λ e.
          env.wrap (some e) "wlavm/prepare:imageVolumeManager() error while decrypting the image"
    let decrypted_image_path = image_mount_path <> ("/" <> image_uuid)
    write_err ← invoke env (write_file decrypted_image_path decrypted_image 0o664)
    nil_or write_err
        λ e. some "wlavm/prepare:imageVolumeManager() error writing the decrypted data to file"
    qemu ← call (user_info_look_up env "qemu")
    nil_or qemu.1 λ e. some e
    chmod_err ← invoke env (chmod decrypted_image_path 0o664)
    nil_or chmod_err λ e. env.wrap (some e) (
        "wlavm/prepare:imageVolumeManager() error while giving permissions to changed disk path: "
        <> decrypted_image_path)
    chown_err ← invoke env (chown_r image_mount_path qemu.0.0 qemu.0.1)
    nil_or chown_err λ e.
        some "wlavm/prepare:imageVolumeManager() error trying to change mount path owner to qemu"
    return none

  -- `imageVolumeManager`
  unfoldable pub image_volume_manager : String → String → ℤ → Bytes → Func Err
  image_volume_manager image_uuid image_path size key = body do
    let image_device_mapper_path = dev_mapper_dir_path <> image_uuid
    let sparse_file_path = image_path <> "_sparseFile"
    sparse_file ← invoke env (stat sparse_file_path)
    invoke env (lock img_volume_mtx)
    create_err ← invoke env (create_volume sparse_file_path image_device_mapper_path key size)
    invoke env (unlock img_volume_mtx)
    nil_or create_err λ e.
        if contains e "device mapper of the same already exists"
        then none
        else env.wrap (some e)
            "wlavm/prepare:imageVolumeManager() error while creating image dm-crypt volume for image"
    let image_mount_path = mount_path <> image_uuid
    mounted ← call (
        check_mount_path_exists_and_mount_volume env image_mount_path image_device_mapper_path
          image_uuid)
    nil_or mounted λ e.
        env.wrap (some e)
          "wlavm/prepare:imageVolumeManager() error checking if image mount path exists and mounting the volume"
    when (not (is_not_exist sparse_file)) (return none)
    decrypt_image_file image_uuid image_path image_mount_path key
