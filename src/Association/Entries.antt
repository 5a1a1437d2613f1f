-- ===== src/Association/Entries.antt =====
-- What each operation of the association map leaves at each image, however saving it ends.
use workload_agent.Prelude.{◌≡◌, Bool, true, Option, String, ◌∷◌, arith, if◌then◌else◌}
use workload_agent.Prelude.Assoc.{lookup, insert, erase}
use workload_agent.Prelude.Int.{is_zero}
use workload_agent.Types.{Err, ImageVmAssociation, ImageVmAssociations}
use workload_agent.Association.{
  Association, save_image_vm_association, create, delete, delete_entry, associate, dissociate,
  in_use, path_or_empty,
}
use workload_agent.World.{Env, State, lock, unlock, map_mtx}
use workload_agent.World.Go.{◌>>=◌, discard, returned, Outcome, IsReturned}

-- The state in which an operation saves: the map is written under its lock.
abbrev pub written : ImageVmAssociations → State → State
written m s = record s { trace = unlock map_mtx ∷ lock map_mtx ∷ s.trace; associations = m }

-- The answer of `Delete`: whether the count is 0 now, and the image's path; where no VM is
-- counted it is true and no path.
abbrev pub last_vm : Option ImageVmAssociation → Bool
last_vm entry = if in_use entry then is_zero (dissociate entry).vm_count else true

abbrev pub last_path : Option ImageVmAssociation → String
last_path entry = if in_use entry then path_or_empty entry else ""

-- The two values of an answer `(isLastVM, imagePath, err)`, if there is one.
abbrev pub Answers : Outcome (Bool × String × Err) → Bool → String → Type 0
Answers (returned (last, path, e)) last' path' = (last ≡ last') × (path ≡ path')
Answers r last' path' = ⊥

module _ (env : Env) where
  -- Saving changes no entry.
  pub save-associations :
      (s : State) → (save_image_vm_association env s).1.associations ≡ s.associations
  unfolding save_image_vm_association ◌>>=◌ discard
  save-associations s = ground arith

  pub save-IsReturned : (s : State) → IsReturned (save_image_vm_association env s).0
  unfolding save_image_vm_association ◌>>=◌ discard
  save-IsReturned s = ground arith

  -- `Create` writes the image's entry.
  pub create-associations :
      (a : Association) (s : State)
      → (create env a s).1.associations
        ≡ insert a.image_uuid
            (associate a.image_path (lookup a.image_uuid s.associations))
            s.associations
  unfolding create ◌>>=◌
  create-associations a s = ground (
    arith,
    save-associations (
        written
          (insert a.image_uuid (associate a.image_path (lookup a.image_uuid s.associations))
            s.associations)
          s),
  )

  -- `Delete` writes the image's entry only if that has a VM.
  pub delete-associations :
      (a : Association) (s : State)
      → (delete env a s).1.associations ≡ (
          if in_use (lookup a.image_uuid s.associations)
          then insert a.image_uuid (dissociate (lookup a.image_uuid s.associations)) s.associations
          else s.associations)
  unfolding delete ◌>>=◌
  delete-associations a s = ground (
    arith,
    save-associations (
        written
          (insert a.image_uuid (dissociate (lookup a.image_uuid s.associations)) s.associations) s),
  )

  pub delete_entry-associations :
      (a : Association) (s : State)
      → (delete_entry env a s).1.associations ≡ erase a.image_uuid s.associations
  unfolding delete_entry ◌>>=◌
  delete_entry-associations a s =
      ground (arith, save-associations (written (erase a.image_uuid s.associations) s))

  pub delete-answer :
      (a : Association) (s : State)
      → Answers
          (delete env a s).0
          (last_vm (lookup a.image_uuid s.associations))
          (last_path (lookup a.image_uuid s.associations))
  unfolding delete ◌>>=◌
  delete-answer a s = ground (
    arith,
    save-IsReturned (
        written
          (insert a.image_uuid (dissociate (lookup a.image_uuid s.associations)) s.associations) s),
  )
