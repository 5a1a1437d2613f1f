-- ===== src/Wlavm/Stop.antt =====
-- wlavm/stop.go: `Stop`.
pub mod Closing
use workload_agent.Prelude.{String, ◌<>◌, Bool, true, false, not, ◌&&◌, none, some, [], ◌∷◌, str_eq}
use workload_agent.Prelude.Strings.{contains}
use workload_agent.Association.{delete}
use workload_agent.Config.{is_not_exist}
use workload_agent.Consts.{mount_path, dev_mapper_dir_path}
use workload_agent.Libvirt.{DomainParser, new_domain_parser, stop}
use workload_agent.Types.{Err}
use workload_agent.World.{
  Env, stat, execute_command, unmount, delete_volume, lock, unlock, stop_mtx,
}
use workload_agent.World.Go.{
  Func, Go, ◌>>=◌, ◌>>◌, pure, return, call, deferring, body, invoke, when, value_or, nil_or,
  discard,
}

module _ (env : Env) where
  -- `isVmVolumeEncrypted`
  unfoldable pub is_vm_volume_encrypted : String → Func (Bool × Err)
  is_vm_volume_encrypted vm_uuid = body do
    let device_mapper_location = dev_mapper_dir_path <> vm_uuid
    result ← invoke env (execute_command "cryptsetup" ("status" ∷ device_mapper_location ∷ []))
    when (not (str_eq result.output "") && contains result.output "inactive") (return (false, none))
    nil_or result.error λ e. (
      false,
      env.wrap (some e)
          "wlavm/stop:isVmVolumeEncrypted() error occurred while executing cryptsetup status command",
    )
    return (true, none)

  -- Both errors are logged, and the stop goes on.
  unfoldable pub close_volume : String → String → Go Bool (Unit {0})
  close_volume mount_point device = do
    invoke env (unmount mount_point)
    invoke env (delete_volume device)
    pure tt

  -- The end of `Stop`: the image's volume is closed after its last VM, under the mutex.
  unfoldable pub close_image : DomainParser → Bool → String → Go Bool Bool
  close_image d is_last_vm image_path = do
    when (str_eq image_path "") (return true)
    when (not is_last_vm) (return true)
    invoke env (lock stop_mtx)
    deferring (discard env (unlock stop_mtx))
        do close_volume image_path (dev_mapper_dir_path <> d.image_uuid); return true

  -- `Stop` of a parsed domain.
  unfoldable pub stop_domain : DomainParser → Go Bool Bool
  stop_domain d = do
    vm ← invoke env (stat d.vm_path)
    when (is_not_exist vm) (return false)
    is_vm_volume ← call (is_vm_volume_encrypted d.vm_uuid)
    nil_or is_vm_volume.1 λ e. false
    when is_vm_volume.0 (close_volume (mount_path <> d.vm_uuid) (dev_mapper_dir_path <> d.vm_uuid))
    deleted ← call (delete env (record { image_uuid = d.image_uuid; image_path = "" }))
    close_image d deleted.0 deleted.1

  -- `Stop`
  unfoldable pub stop_vm : String → Func Bool
  stop_vm domain_xml_content = body do
    parsed ← call (new_domain_parser env domain_xml_content stop)
    d ← value_or parsed λ e. false
    stop_domain d
