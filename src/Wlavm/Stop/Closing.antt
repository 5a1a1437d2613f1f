-- ===== src/Wlavm/Stop/Closing.antt =====
-- Which volumes `Stop` closes (wlavm/stop.go): the VM's where it is active, and the image's where
-- this was the image's last VM; each is unmounted before it is deleted.
use workload_agent.Prelude.{
  String, ◌<>◌, ◌≡◌, Bool, true, false, not, ◌&&◌, none, some, List, [], ◌∷◌, ◌++◌, str_eq, arith,
  if◌then◌else◌,
}
use workload_agent.Prelude.Assoc.{lookup, insert}
use workload_agent.Association.{Association, save_image_vm_association, delete, dissociate}
use workload_agent.Association.Entries.{Answers, last_vm, last_path, delete-answer, written}
use workload_agent.Config.{is_not_exist}
use workload_agent.Consts.{mount_path, dev_mapper_dir_path}
use workload_agent.Libvirt.{DomainParser}
use workload_agent.Types.{Err, ImageVmAssociations}
use workload_agent.Wlavm.Stop.{is_vm_volume_encrypted, close_volume, close_image, stop_domain}
use workload_agent.World.{Env, State, Call, stat, unmount, delete_volume}
use workload_agent.World.Go.{
  Go, ◌>>=◌, ◌>>◌, nil_or, when, call, body, discard, returned, Outcome, settle, continue, resume,
}

-- The calls that close volumes, the latest first.
abbrev pub closes : List Call → List Call
closes [] = []
closes (unmount p ∷ t) = unmount p ∷ closes t
closes (delete_volume p ∷ t) = delete_volume p ∷ closes t
closes (_ ∷ t) = closes t

-- The closing of the volume of the given UUID, mounted at the given place.
abbrev pub closing : String → String → List Call
closing uuid mount_point = delete_volume (dev_mapper_dir_path <> uuid) ∷ unmount mount_point ∷ []

abbrev pub closing_vm : Bool → String → List Call
closing_vm true vm_uuid = closing vm_uuid (mount_path <> vm_uuid)
closing_vm false vm_uuid = []

-- The image's volume is closed if its last VM stops and its path is known.
abbrev pub closing_image : Bool → String → String → List Call
closing_image is_last path image_uuid =
    if is_last && not (str_eq path "") then closing image_uuid path else []

-- What is known of the end of `Stop`: it returns true, and has closed the given volumes.
abbrev pub Closed : List Call → Outcome Bool × State → Type 0
Closed calls r = (r.0 ≡ returned true) × (closes r.1.trace ≡ calls)

module _ (env : Env) where
  save-closes : (s : State) → closes (save_image_vm_association env s).1.trace ≡ closes s.trace
  unfolding save_image_vm_association ◌>>=◌ discard
  save-closes s = ground arith

  encrypted-closes :
      (vm_uuid : String) (s : State)
      → (closes (is_vm_volume_encrypted env vm_uuid s).1.trace ≡ closes s.trace)
        × ((is_vm_volume_encrypted env vm_uuid s).1.associations ≡ s.associations)
  unfolding is_vm_volume_encrypted ◌>>=◌
  encrypted-closes vm_uuid s = ground arith

  close_image-closes :
      (d : DomainParser) (is_last : Bool) (path : String) (s : State)
      → ((body (close_image env d is_last path) s).0 ≡ returned true)
        × (closes (body (close_image env d is_last path) s).1.trace
            ≡ closing_image is_last path d.image_uuid ++ closes s.trace)
  unfolding close_image close_volume ◌>>=◌ discard
  close_image-closes d is_last path s = ground arith

  delete-closes : (a : Association) (s : State) → closes (delete env a s).1.trace ≡ closes s.trace
  unfolding delete ◌>>=◌
  delete-closes a s = ground (
    arith,
    save-closes (
        written
          (insert a.image_uuid (dissociate (lookup a.image_uuid s.associations)) s.associations) s),
  )

  abbrev stopping : DomainParser → Association
  stopping d = record { image_uuid = d.image_uuid; image_path = "" }

  close_deleted :
      (d : DomainParser) (r : Outcome (Bool × String × Err) × State) (is_last : Bool)
      (path : String)
      → Answers r.0 is_last path
      → Closed
          (closing_image is_last path d.image_uuid ++ closes r.1.trace)
          (settle (continue (resume r) λ deleted. close_image env d deleted.0 deleted.1))
  unfolding body
  close_deleted d (returned (is_last', path', e), s) is_last path (same, at) =
      rw (← same, ← at) (close_image-closes d is_last' path' s)
  close_deleted d (Outcome.panicked, s) is_last path h = absurd h
  close_deleted d (Outcome.exited n, s) is_last path h = absurd h

  -- `Stop` from the deletion of the association on.
  delete_and_close :
      (d : DomainParser) (s : State)
      → let e = lookup d.image_uuid s.associations in
        Closed (closing_image (last_vm e) (last_path e) d.image_uuid ++ closes s.trace) (
          settle (
            continue
              (resume (delete env (stopping d) s))
              λ deleted. close_image env d deleted.0 deleted.1))
  delete_and_close d s =
      rw (← delete-closes (stopping d) s)
        (close_deleted d (delete env (stopping d) s) _ _ (delete-answer env (stopping d) s))

  -- `Stop` from the answer of `isVmVolumeEncrypted` on.
  stop_told : DomainParser → Bool × Err → Go Bool Bool
  stop_told d is_vm_volume = do
    nil_or is_vm_volume.1 λ e. false
    when is_vm_volume.0
        (close_volume env (mount_path <> d.vm_uuid) (dev_mapper_dir_path <> d.vm_uuid))
    deleted ← call (delete env (stopping d))
    close_image env d deleted.0 deleted.1

  close_told :
      (d : DomainParser) (active : Bool) (r : Outcome (Bool × Err) × State)
      → r.0 ≡ returned (active, none)
      → let e = lookup d.image_uuid r.1.associations in
        Closed
          (closing_image (last_vm e) (last_path e) d.image_uuid
            ++ (closing_vm active d.vm_uuid ++ closes r.1.trace))
          (settle (continue (resume r) (stop_told d)))
  unfolding stop_told close_volume ◌>>=◌
  close_told d true (returned (true, none), s) told = delete_and_close d (record s {
    trace =
        delete_volume (dev_mapper_dir_path <> d.vm_uuid)
        ∷ unmount (mount_path <> d.vm_uuid)
        ∷ s.trace;
  })
  close_told d false (returned (false, none), s) told = delete_and_close d s
  close_told d true (returned (false, none), s) told = cc
  close_told d false (returned (true, none), s) told = cc
  close_told d active (returned (b, some e), s) told = cc
  close_told d active (Outcome.panicked, s) told = cc
  close_told d active (Outcome.exited n, s) told = cc

  close_from :
      (d : DomainParser) (active : Bool) (r : Outcome (Bool × Err) × State)
      (m : ImageVmAssociations) (calls : List Call)
      → r.0 ≡ returned (active, none)
      → closes r.1.trace ≡ calls
      → r.1.associations ≡ m
      → let e = lookup d.image_uuid m in
        Closed
          (closing_image (last_vm e) (last_path e) d.image_uuid
            ++ (closing_vm active d.vm_uuid ++ calls))
          (settle (continue (resume r) (stop_told d)))
  close_from d active r m calls told traces keeps =
      rw (← traces, ← keeps) (close_told d active r told)

  -- Where the VM's disk is there and `cryptsetup` tells whether its volume is active, `Stop`
  -- returns true. It then has closed the VM's volume if that is active, and after it the image's
  -- volume if the association map counts no further VM of the image and knows its path; each is
  -- unmounted before it is deleted, and no other volume is closed.
  pub stop-closes :
      (d : DomainParser) (s : State) (active : Bool)
      → is_not_exist (env.answer (stat d.vm_path) s.trace) ≡ false
      → let found = record s { trace = stat d.vm_path ∷ s.trace } in
        (is_vm_volume_encrypted env d.vm_uuid found).0 ≡ returned (active, none)
        → let e = lookup d.image_uuid s.associations in
          Closed
            (closing_image (last_vm e) (last_path e) d.image_uuid
              ++ (closing_vm active d.vm_uuid ++ closes s.trace))
            (body (stop_domain env d) s)
  unfolding stop_domain stop_told ◌>>=◌ body
  stop-closes d s active there told =
      let found = record s { trace = stat d.vm_path ∷ s.trace } in
      let r = is_vm_volume_encrypted env d.vm_uuid found in
      let (traces, keeps) = encrypted-closes d.vm_uuid found in
      rw there (close_from d active r s.associations (closes s.trace) told traces keeps)
