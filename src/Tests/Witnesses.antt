-- ===== src/Tests/Witnesses.antt =====
-- The theorems on VMs, locks and the file watcher, on a daemon in the calm world.
use workload_agent.Prelude.{
  ◌≡◌, refl, String, Option, true, false, none, some, List, [], ◌∷◌, ◌++◌, ◌<>◌, arith,
}
use workload_agent.Prelude.Assoc.{lookup, insert}
use workload_agent.Prelude.Int.{pos, decrement}
use workload_agent.Consts.{mount_path}
use workload_agent.Association.{
  create, delete, save_image_vm_association, load_image_vm_association,
}
use workload_agent.Association.Entries.{Answers}
use workload_agent.Association.Ledger.{
  Act, starts, stops, Image, Ledger, Represents, HasRoom, acts, perform_all, delete-acts,
  perform_all-Represents,
}
use workload_agent.Association.Persistence.{restart, save-load}
use workload_agent.Filewatch.{Notice, event, error, closed, watch, handle_event}
use workload_agent.Filewatch.Dispatch.{watch_calls, watch-calls, watch-handle_event}
use workload_agent.Footprint.Start.{MayStart, start_vm-MayStart}
use workload_agent.Footprint.Stop.{MayStop, stop-MayStop}
use workload_agent.Footprint.Prepare.{MayPrepare, prepare-MayPrepare}
use workload_agent.Libvirt.{DomainParser, new_domain_parser, domain_parser, prepare}
use workload_agent.Locks.Handlers.{start-Balanced, prepare-Balanced, stop-Balanced}
use workload_agent.Rpc
use workload_agent.Tests.Calm.{
  calm, crypto_path, counted, daemon, encrypted_domain, calm-KeepsFiles, calm-WrapsErrors,
}
use workload_agent.Types.{Event, remove_mount_path}
use workload_agent.Wlavm.Prepare.{prepare_domain}
use workload_agent.Wlavm.Start.{
  start_vm, report_and_associate, create_instance_trust_report, sign_instance_trust_report,
  create_signature_with_tpm,
}
use workload_agent.Clients.{get_image_flavor_key, post_vm_report}
use workload_agent.Config.{
  get_signing_cert_from_file, get_signing_key_from_file, get_file_content_from_config_dir,
}
use workload_agent.Tpm.{get_tpm_instance}
use workload_agent.Prelude.Strings.{contains}
use workload_agent.Wlavm.Start.Posted.{Posted, start_vm-Posted}
use workload_agent.Wlavm.Stop.{stop_domain, is_vm_volume_encrypted}
use workload_agent.Wlavm.Stop.Closing.{Closed, closing, stop-closes}
use workload_agent.World.{stat, lock, unlock, watcher_mtx, remove_all}
use workload_agent.World.Go.{returned, body, ◌>>=◌, discard}
use workload_agent.World.Keeps.{Emits}
use workload_agent.World.Locks.{Balanced}

-- The domain that the calm world's XML package decodes.
abbrev domain : DomainParser
domain = record {
  xml = "<domain/>";
  qemu_intercept_call = prepare;
  vm_uuid = "vm";
  vm_path = "/vm/disk";
  image_uuid = "image";
  image_path = crypto_path;
  size = pos 10;
}

-- Two VMs of one image start, and one of them stops.
abbrev acts_done : List Act
acts_done = starts "image" crypto_path ∷ starts "image" "/other" ∷ stops "image" ∷ []

abbrev no_images : Ledger
no_images k = none

no_images-HasRoom : HasRoom 3 no_images
no_images-HasRoom k = omega arith

no_images-Represents : Represents [] no_images
unfolding lookup
no_images-Represents k = refl

abbrev one_running : Option Image
one_running = some (record { path = crypto_path; running = 1 })

perform_all-Represents_example :
    Represents (perform_all calm acts_done (daemon [])).associations (acts acts_done no_images)
perform_all-Represents_example =
    perform_all-Represents calm acts_done (daemon []) no_images no_images-HasRoom
      no_images-Represents

delete-acts_example :
    Answers
      (delete calm
        (record { image_uuid = "image"; image_path = "" })
        (perform_all calm acts_done (daemon []))).0
      true
      crypto_path
delete-acts_example =
    delete-acts calm acts_done (record { image_uuid = "image"; image_path = "" }) (daemon [])
      no_images no_images-HasRoom no_images-Represents

calm-starts : (start_vm calm "<domain/>" (daemon [])).0 ≡ returned true
unfolding start_vm new_domain_parser domain_parser report_and_associate get_image_flavor_key
    create_instance_trust_report sign_instance_trust_report create_signature_with_tpm
    get_signing_cert_from_file get_signing_key_from_file get_file_content_from_config_dir
    get_tpm_instance post_vm_report create save_image_vm_association ◌>>=◌ discard lookup insert
calm-starts = refl

calm-encrypted :
    (is_vm_volume_encrypted calm "vm"
      (record (daemon (counted 1)) { trace = stat "/vm/disk" ∷ [] })).0
    ≡ returned (true, none)
unfolding is_vm_volume_encrypted contains ◌>>=◌
calm-encrypted = refl

calm-saves : (save_image_vm_association calm (daemon (counted 2))).0 ≡ returned none
unfolding save_image_vm_association ◌>>=◌ discard
calm-saves = refl

start_vm-Posted_example : Posted calm (start_vm calm "<domain/>" (daemon [])).1.trace
start_vm-Posted_example =
    start_vm-Posted calm calm-WrapsErrors "<domain/>" encrypted_domain (daemon []) refl refl
      calm-starts

stop-closes_example :
    Closed
      (closing "image" crypto_path ++ closing "vm" (mount_path <> "vm"))
      (body (stop_domain calm domain) (daemon (counted 1)))
unfolding lookup decrement
stop-closes_example = stop-closes calm domain (daemon (counted 1)) true refl calm-encrypted

prepare-MayPrepare_example : Emits (MayPrepare domain) (prepare_domain calm domain)
prepare-MayPrepare_example = prepare-MayPrepare calm domain

save-load_example :
    let t = (save_image_vm_association calm (daemon (counted 2))).1 in
    ((load_image_vm_association calm (restart t)).0 ≡ returned none)
    × ((k : String)
        → lookup k (load_image_vm_association calm (restart t)).1.associations
          ≡ lookup k (counted 2))
save-load_example =
    save-load calm calm-KeepsFiles (daemon (counted 2)) calm-WrapsErrors calm-saves refl

prepare-Balanced_example : Balanced [] (Rpc.prepare calm "<domain/>" false)
prepare-Balanced_example = prepare-Balanced calm "<domain/>" false

stop-Balanced_example : Balanced [] (Rpc.stop calm "<domain/>" false)
stop-Balanced_example = stop-Balanced calm "<domain/>" false

start-Balanced_example : Balanced [] (Rpc.start calm "<domain/>" false)
start-Balanced_example = start-Balanced calm "<domain/>" false

-- An event of a file, an error, another event, and the close.
abbrev notices : List Notice
notices =
    event (record { name = "/vm/disk.info"; op = 4 })
    ∷ error "overflow"
    ∷ event (record { name = "/vm/other"; op = 4 })
    ∷ closed
    ∷ event (record { name = "/vm/disk.info"; op = 4 })
    ∷ []

abbrev handlers : List (String × workload_agent.Types.Handler)
handlers = ("/vm/disk.info", remove_mount_path "/mount/vm") ∷ []

watch-calls_example : watch calm notices (record (daemon []) { handlers = handlers }) ≡ (
  returned tt,
  record (daemon []) { handlers = handlers; trace = watch_calls calm handlers notices [] },
)
watch-calls_example = watch-calls calm notices (record (daemon []) { handlers = handlers })

watch-handle_event_example :
    let t = (handle_event calm "/vm/disk.info" (remove_mount_path "/mount/vm") (daemon [])).1 in
    (watch calm (event (record { name = "/vm/disk.info"; op = 4 }) ∷ []) t).1.trace
    ≡ unlock watcher_mtx ∷ remove_all "/mount/vm" ∷ lock watcher_mtx ∷ t.trace
watch-handle_event_example =
    watch-handle_event calm "/vm/disk.info" (remove_mount_path "/mount/vm") 4 (daemon []) refl

start_vm-MayStart_example : Emits MayStart (start_vm calm "<domain/>")
start_vm-MayStart_example = start_vm-MayStart calm "<domain/>"

stop-MayStop_example : Emits (MayStop domain) (stop_domain calm domain)
stop-MayStop_example = stop-MayStop calm domain
