-- ===== src/Footprint/Stop.antt =====
-- What `Stop` of a domain touches (wlavm/stop.go).
use workload_agent.Prelude.{List, ◌<>◌, ◌≡◌, ◌⊎◌, inl, inr, [], ◌∷◌}
use workload_agent.Association.{image_vm_association_file_path}
use workload_agent.Consts.{dev_mapper_dir_path}
use workload_agent.Footprint.Services.{IsHarmless, discard-Emitted, delete-Emitted}
use workload_agent.Libvirt.{DomainParser}
use workload_agent.Wlavm.Stop.{is_vm_volume_encrypted, close_volume, close_image, stop_domain}
use workload_agent.World.{Env, Call, write_file, execute_command, delete_volume, unmount}
use workload_agent.World.Keeps.{Keeps, Emitted, Emits, Keeps-Emits, Emitted-invoke, keeps_rules}

module _ (d : DomainParser) where
  -- The calls that `Stop` may make.
  abbrev pub MayStop : Call → Type 0
  MayStop (write_file p text n) = (p ≡ image_vm_association_file_path) × (n ≡ 0o600)
  MayStop (delete_volume p) =
      (p ≡ dev_mapper_dir_path <> d.vm_uuid) ⊎ (p ≡ dev_mapper_dir_path <> d.image_uuid)
  MayStop (execute_command name args) =
      (name ≡ "cryptsetup") × (args ≡ "status" ∷ (dev_mapper_dir_path <> d.vm_uuid) ∷ [])
  MayStop (unmount p) = Unit
  MayStop c = IsHarmless c

  safe : (c : Call) → IsHarmless c → MayStop c
  safe (write_file p t n) h = absurd h
  safe (execute_command p l) h = absurd h
  safe (delete_volume p) h = absurd h
  safe (unmount p) h = absurd h
  safe _ h = h

module _ (env : Env) (d : DomainParser) where
  stop-Emitted : (t : List Call) → Keeps (Emitted (MayStop d) t) (stop_domain env d)
  unfolding stop_domain close_image close_volume is_vm_volume_encrypted
  stop-Emitted t =
      search (keeps_rules, Emitted-invoke, safe, discard-Emitted, delete-Emitted, inl, inr) depth 60
        fits 3000

  -- `Stop` of a domain removes no file, creates and mounts no volume, and writes the association
  -- file alone, with mode 0600; the volumes that it closes are those of its VM and its image, and
  -- the one command that it runs is `cryptsetup status` on the VM's, however it ends.
  pub stop-MayStop : Emits (MayStop d) (stop_domain env d)
  stop-MayStop = Keeps-Emits (stop_domain env d) stop-Emitted
