-- ===== src/Tests/Commands.antt =====
-- The theorems on the command line, the setup tasks and the tasks of the RPC methods, in the calm
-- world.
use workload_agent.Prelude.{
  ℕ, ◌≤◌, ◌≢◌, ◌⊎◌, ◌↔◌, ◌++◌, ◌≡◌, refl, true, false, none, some, [], ◌∷◌,
}
use workload_agent.Prelude.Int.{pos}
use workload_agent.Footprint.Setup.{MaySetup}
use workload_agent.Footprint.Setup.Tasks.{setup-MaySetup}
use workload_agent.Keys.Creation.{
  create_key, create_with_secret, write_certified_key_to_disk, write_key, written_after,
  generate_key, validate_key,
}
use workload_agent.Keys.Creation.Files.{generate_key-validate_key}
use workload_agent.Keys.Creation.Secrets.{NewSecret, generate_key-config, generate_key-NewSecret}
use workload_agent.Keys.Registration.{create_request}
use workload_agent.Keys.Registration.Panics.{create_request-panics}
use workload_agent.Main.{main, purges, uninstall, log_as_configured, run_args, run_case, command_of}
use workload_agent.Main.Hook.{ask, ask_start, ask_stop, exit_by}
use workload_agent.Main.Hook.Confirmed.{IsEncrypted, Relays, start_vm_command-Posted}
use workload_agent.Main.Hook.Exits.{ask-exits}
use workload_agent.Main.Removal.{removals, program_paths, uninstall-removals}
use workload_agent.Main.Service.{runservice, run_grpc_service}
use workload_agent.Main.Service.Spawning.{SpawnsTasks, services-SpawnsTasks}
use workload_agent.Main.Tasks.{Runner, Task}
use workload_agent.Main.Usage.{Build}
use workload_agent.Prelude.Assoc.{lookup, insert}
use workload_agent.Association.{create, save_image_vm_association}
use workload_agent.Clients.{get_image_flavor_key, post_vm_report}
use workload_agent.Config.{
  get_signing_cert_from_file, get_signing_key_from_file, get_file_content_from_config_dir,
}
use workload_agent.Libvirt.{new_domain_parser, domain_parser}
use workload_agent.Tpm.{get_tpm_instance}
use workload_agent.Wlavm.Start.{
  start_vm, report_and_associate, create_instance_trust_report, sign_instance_trust_report,
  create_signature_with_tpm,
}
use workload_agent.Rpc
use workload_agent.Rpc.Returns.{stop-Returns}
use workload_agent.Rpc.Tasks.{RunsOneTask, method-RunsOneTask}
use workload_agent.Config.Log.{log_configuration}
use workload_agent.Config.Setup.Steps.{EmptySince}
use workload_agent.Config.Setup.{save, create_if_absent}
use workload_agent.Consts.{config_dir_path}
use workload_agent.Setup
use workload_agent.Setup.UpdateServiceConfig.{
  run, validate, skip_if_valid, take_account, take_options, max_length_setting,
}
use workload_agent.Setup.UpdateServiceConfig.Settings.{
  HasService, max_length_setting-bound, run-validates, run-HasService,
}
use workload_agent.Tests.Calm.{calm, calm-WrapsErrors, daemon, encrypted_domain, certified_key}
use workload_agent.Types.{ok, binding, signing}
use workload_agent.World.{State}
use workload_agent.World.Keeps.{Emits}
use workload_agent.World.Go.{Outcome, returned, exited, IsReturned, ◌>>=◌, body, return, discard}
use workload_agent.Wlavm.Start.Posted.{Posted}

abbrev here : State
here = daemon []

abbrev build : Build
build = record { version = "v4.0"; build_date = "2021-06-01"; git_hash = "abc" }

abbrev no_task : Task
no_task = record { run = body (return none); validate = body (return none) }

abbrev runner : Runner
runner = record {
  download_ca_cert = λ flags url dir digest. no_task;
  run_tasks = λ tasks names. body (return none);
}

method-RunsOneTask_example :
    RunsOneTask false [] (Rpc.start calm "xml" false here)
    × RunsOneTask false [] (Rpc.prepare calm "xml" false here)
    × RunsOneTask true [] (Rpc.stop calm "xml" false here)
method-RunsOneTask_example = method-RunsOneTask calm "xml" false here (λ quits. refl)

stop-Returns_example : IsReturned (Rpc.stop calm "xml" false here).0
stop-Returns_example = stop-Returns calm "xml" false here

ask-exits_example :
    ((ask calm "VirtualMachine.Prepare" ("xml" ∷ []) here).0 ≡ exited 0)
    × ((ask_stop calm ("xml" ∷ []) here).0 ≡ exited 0)
ask-exits_example = ask-exits calm "VirtualMachine.Prepare" ("xml" ∷ []) here

calm-IsEncrypted : IsEncrypted calm "xml"
calm-IsEncrypted = record { domain = encrypted_domain; decodes = λ t. refl; encrypted = refl }

calm-replies : (Rpc.start calm "xml" false here).0 ≡ returned (true, none)
unfolding Rpc.start start_vm new_domain_parser domain_parser report_and_associate
    get_image_flavor_key create_instance_trust_report sign_instance_trust_report
    create_signature_with_tpm get_signing_cert_from_file get_signing_key_from_file
    get_file_content_from_config_dir get_tpm_instance post_vm_report create
    save_image_vm_association ◌>>=◌ discard lookup insert
calm-replies = refl

calm-Relays : Relays calm calm "xml" here
calm-Relays t h = calm-replies

main_start_vm : (main calm build runner "wlagent" ("start-vm" ∷ "xml" ∷ []) here).0 ≡ exited 0
unfolding main run_args run_case log_as_configured log_configuration command_of ask_start ask
    exit_by ◌>>=◌
main_start_vm = refl

start_vm_command-Posted_example : Posted calm (Rpc.start calm "xml" false here).1.trace
start_vm_command-Posted_example =
    start_vm_command-Posted calm build runner "wlagent" "xml" [] calm here here calm-WrapsErrors
      calm-IsEncrypted calm-Relays refl main_start_vm

uninstall-removals_example :
    ((uninstall calm ("--purge" ∷ []) here).0 ≡ returned tt)
    × (removals (uninstall calm ("--purge" ∷ []) here).1.trace
        ≡ config_dir_path ∷ (program_paths ++ []))
unfolding purges
uninstall-removals_example = uninstall-removals calm ("--purge" ∷ []) here

services-SpawnsTasks_example :
    SpawnsTasks calm (runservice calm here).1.trace
    × SpawnsTasks calm (run_grpc_service calm here).1.trace
services-SpawnsTasks_example = services-SpawnsTasks calm here tt

max_length_setting-bound_example :
    ((n : ℕ) × (max_length_setting (ok (pos 99)) (pos 0) ≡ pos n) × (100 ≤ n))
    ⊎ ((max_length_setting (ok (pos 99)) (pos 0) ≡ pos 0) × (pos 0 ≢ pos 0))
max_length_setting-bound_example = max_length_setting-bound (ok (pos 99)) (pos 0)

run_update : (run calm [] here).0 ≡ returned none
unfolding run skip_if_valid take_account take_options save create_if_absent discard ◌>>=◌
run_update = refl

run-validates_example :
    ((validate calm (run calm [] here).1).0 ≡ returned none)
    ⊎ EmptySince calm [] (run calm [] here).1.trace
run-validates_example = run-validates calm calm-WrapsErrors [] here run_update

run-HasService_example :
    HasService (run calm [] here).1.config ⊎ EmptySince calm [] (run calm [] here).1.trace
run-HasService_example = run-HasService calm calm-WrapsErrors [] here refl run_update

generate_signing : (generate_key calm signing true here).0 ≡ returned none
unfolding generate_key written_after create_key create_with_secret write_certified_key_to_disk
    write_key save create_if_absent discard ◌>>=◌
generate_signing = refl

generate_key-validate_key_example :
    (validate_key calm signing (generate_key calm signing true here).1).0 ≡ returned none
generate_key-validate_key_example =
    generate_key-validate_key calm signing here calm-WrapsErrors (λ path t h. (_, refl)) refl
      generate_signing

generate_key-config_example :
    let c = (generate_key calm binding true here).1.config in
    (c ≡ here.config) ⊎ NewSecret calm binding here c
generate_key-config_example = generate_key-config calm binding here refl

create_key-calm : (create_key calm signing here).0 ≡ returned (some certified_key, none)
unfolding create_key create_with_secret save create_if_absent discard ◌>>=◌
create_key-calm = refl

generate_key-NewSecret_example :
    NewSecret calm signing here (generate_key calm signing true here).1.config
generate_key-NewSecret_example =
    generate_key-NewSecret calm signing here (some certified_key) refl create_key-calm

create_request-panics_example :
    ((create_request calm (1 ∷ []) here).0 ≡ Outcome.panicked) ↔ (false ≡ true)
create_request-panics_example =
    create_request-panics calm (1 ∷ []) (1 ∷ []) certified_key here refl refl

setup-MaySetup_example :
    Emits MaySetup (Setup.SigningKey.run calm [] true)
    × Emits MaySetup (Setup.BindingKey.run calm [] true)
    × Emits MaySetup (Setup.RegisterSigningKey.run calm [])
    × Emits MaySetup (Setup.RegisterBindingKey.run calm [])
    × Emits MaySetup (run calm [])
setup-MaySetup_example = setup-MaySetup calm [] true
