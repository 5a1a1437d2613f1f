-- ===== src/Association.antt =====
-- util/util.go and wlavm/image_VM_association.go: the map of images to the number of their running
-- VMs, kept in memory and in a YAML file.
pub mod Locks
pub mod Entries
pub mod Persistence
pub mod Ledger
pub mod Interleaved
use workload_agent.Prelude.{String, ◌<>◌, Bool, true, false, not, none, some, ◌==◌}
use workload_agent.Prelude.{Option, is_empty}
use workload_agent.Prelude.Int.{pos, increment, decrement, is_positive, is_zero}
use workload_agent.Prelude.Assoc.{lookup, insert, erase}
use workload_agent.Consts.{run_dir_path, image_vm_count_association_file_name}
use workload_agent.Types.{Err, ImageVmAssociation, StatResult, found, missing, unreadable}
use workload_agent.World.{
  Env, map_mtx, lock, unlock, rlock, runlock, open_file, close, read_all, yaml_unmarshal,
  yaml_marshal, stat, write_file,
}
use workload_agent.World.Go.{
  Func, ◌>>=◌, ◌>>◌, return, call, deferring, body, invoke, gets, modify, when, value_or, nil_or,
  discard, some_or_panic,
}

abbrev pub image_vm_association_file_path : String
image_vm_association_file_path = run_dir_path <> image_vm_count_association_file_name

-- `fInfo != nil && fInfo.Mode().Perm() != 0600`
abbrev pub wrong_permission : StatResult → Bool
wrong_permission (found info) = not (info.perm == 0o600)
wrong_permission missing = false
wrong_permission (unreadable e) = false

-- `wlavm.ImageVMAssociation`
pub record Association : Type 0 where
  pub image_uuid : String
  pub image_path : String

-- What `Create` writes at the image's key.
abbrev pub associate : String → Option ImageVmAssociation → ImageVmAssociation
associate path none = record { image_path = path; vm_count = pos 1 }
associate path (some a) = record a { vm_count = increment a.vm_count }

-- `ok && imageAttributes.VMCount > 0`
abbrev pub in_use : Option ImageVmAssociation → Bool
in_use none = false
in_use (some a) = is_positive a.vm_count

-- `imageAttributes.VMCount = imageAttributes.VMCount - 1`
abbrev pub decremented : ImageVmAssociation → ImageVmAssociation
decremented a = record a { vm_count = decrement a.vm_count }

-- The entry that `Delete` leaves, where it finds one in use.
abbrev pub dissociate : Option ImageVmAssociation → ImageVmAssociation
dissociate none = record { image_path = ""; vm_count = pos 0 }
dissociate (some a) = decremented a

abbrev pub path_or_empty : Option ImageVmAssociation → String
path_or_empty none = ""
path_or_empty (some a) = a.image_path

module _ (env : Env) where
  -- `util.LoadImageVMAssociation`
  unfoldable pub load_image_vm_association : Func Err
  load_image_vm_association = body do
    invoke env (rlock map_mtx)
    opened ← invoke env (open_file image_vm_association_file_path false 0o600)
    invoke env (runlock map_mtx)
    nil_or opened λ e. some e
    deferring (discard env (close image_vm_association_file_path)) do
      contents ← invoke env (read_all image_vm_association_file_path)
      text ← value_or contents λ e. some e
      before ← gets λ s. s.associations
      unmarshalled ← invoke env (yaml_unmarshal text before)
      modify λ s. record s { associations = unmarshalled.0 }
      nil_or unmarshalled.1 λ e. some e
      return none

  -- `util.SaveImageVMAssociation`
  unfoldable pub save_image_vm_association : Func Err
  save_image_vm_association = body do
    associations ← gets λ s. s.associations
    marshalled ← invoke env (yaml_marshal associations)
    text ← value_or marshalled λ e. some e
    info ← invoke env (stat image_vm_association_file_path)
    when (wrong_permission info)
        (return (some ("Invalid file permission on " <> image_vm_association_file_path)))
    invoke env (lock map_mtx)
    deferring (discard env (unlock map_mtx)) do
      written ← invoke env (write_file image_vm_association_file_path text 0o600)
      nil_or written λ e. env.wrap (some e) (
          "util/util:SaveImageVMAssociation() Error while writing file:"
          <> image_vm_association_file_path)
      return none

  -- `ImageVMAssociation.Create`
  unfoldable pub create : Association → Func Err
  create a = body do
    invoke env (lock map_mtx)
    entry ← gets λ s. lookup a.image_uuid s.associations
    modify λ s. record s {
      associations = insert a.image_uuid (associate a.image_path entry) s.associations;
    }
    invoke env (unlock map_mtx)
    saved ← call save_image_vm_association
    nil_or saved λ e.
        env.wrap (some e)
          "wlavm/image_VM_association:Create() error occurred while saving image VM association to a file"
    return none

  -- `ImageVMAssociation.Delete`: whether this was the last VM, the image's path, and the error. To
  -- read the count of an entry that is not there is to dereference a nil pointer.
  unfoldable pub delete : Association → Func (Bool × String × Err)
  delete a = body do
    invoke env (lock map_mtx)
    entry ← gets λ s. lookup a.image_uuid s.associations
    when (not (in_use entry)) do
      invoke env (unlock map_mtx)
      return
          (true, "", some "wlavm/image_VM_association:Delete() image VM association does not exist")
    attributes ← some_or_panic entry
    let left = decremented attributes
    modify λ s. record s { associations = insert a.image_uuid left s.associations }
    let is_last_vm = is_zero left.vm_count
    invoke env (unlock map_mtx)
    saved ← call save_image_vm_association
    nil_or saved λ e. (
      is_last_vm,
      left.image_path,
      env.wrap (some e)
          "wlavm/image_VM_association:Delete() error occurred while saving image VM association to a file",
    )
    return (is_last_vm, left.image_path, none)

  -- `ImageVMAssociation.DeleteEntry`
  unfoldable pub delete_entry : Association → Func Err
  delete_entry a = body do
    invoke env (lock map_mtx)
    modify λ s. record s { associations = erase a.image_uuid s.associations }
    invoke env (unlock map_mtx)
    saved ← call save_image_vm_association
    nil_or saved λ e.
        env.wrap (some e)
          "wlavm/image_VM_association:DeleteEntry() error occurred while saving image VM association to a file"
    return none

  -- `wlavm.imagePathFromVMAssociationFile`
  unfoldable pub image_path_from_vm_association_file : String → Func String
  image_path_from_vm_association_file image_uuid = body do
    loaded ← gets λ s. s.associations
    when (is_empty loaded) do failure ← call load_image_vm_association; nil_or failure λ e. ""
    invoke env (rlock map_mtx)
    entry ← gets λ s. lookup image_uuid s.associations
    invoke env (runlock map_mtx)
    return (path_or_empty entry)
