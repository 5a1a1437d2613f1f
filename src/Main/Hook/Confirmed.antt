-- ===== src/Main/Hook/Confirmed.antt =====
-- What a "start-vm" that exits with 0 shows: the command (main.go) asks the RPC method
-- (rpc/server.go), which starts the VM (wlavm/start.go).
use workload_agent.Prelude.{String, true, false, ◌≡◌, none, List, [], ◌∷◌, arith, starts_with}
use workload_agent.Association.Persistence.{WrapsErrors}
use workload_agent.Config.Log.{log_configuration}
use workload_agent.Consts.{mount_path}
use workload_agent.Libvirt.{image_path_of}
use workload_agent.Libvirt
use workload_agent.Main.{main, run_args, run_case, command_of, log_as_configured}
use workload_agent.Main.Hook.{ask, ask_start}
use workload_agent.Main.Hook.Exits.{ask-answers, checked_trace}
use workload_agent.Main.Tasks.{Runner}
use workload_agent.Main.Usage.{Build}
use workload_agent.Rpc
use workload_agent.Types.{Err, Domain, ok}
use workload_agent.Wlavm.Start.Posted.{Posted, start_vm-Posted}
use workload_agent.World.{
  Env, State, Call, validate_xml_string, validate_strings, rpc_call, xml_unmarshal, add_task,
}
use workload_agent.World.Go.{returned, exited, ◌>>=◌, discard}

-- The daemon's domain has its image in the crypto path, whenever its XML is decoded.
pub record IsEncrypted (env : Env) (xml : String) : Type 0 where
  pub domain : Domain
  pub decodes : (t : List Call) → env.answer (xml_unmarshal xml) t ≡ ok domain
  pub encrypted : starts_with (image_path_of Libvirt.start domain) mount_path ≡ true

module _ (env : Env) (wraps : WrapsErrors env) (xml : String) (e : IsEncrypted env xml) where
  -- Where the RPC method replies true to a client whose reply was false, the Workload Service has
  -- taken a report.
  start-Posted :
      (s : State) (err : Err)
      → (Rpc.start env xml false s).0 ≡ returned (true, err)
      → Posted env (Rpc.start env xml false s).1.trace
  unfolding Rpc.start ◌>>=◌ discard
  start-Posted s err a =
      let t = validate_xml_string xml ∷ add_task false ∷ s.trace in
      let h =
        start_vm-Posted env wraps xml e.domain (record s { trace = t }) (e.decodes t) e.encrypted in
      ground arith

-- The client's reply is true only where the daemon's method returned true without an error, from
-- the state `d` of the daemon.
abbrev pub Relays : Env → Env → String → State → Type 0
Relays client daemon xml d =
    (t : List Call)
    → (client.answer (rpc_call "VirtualMachine.Start" xml) t).0 ≡ true
    → (Rpc.start daemon xml false d).0 ≡ returned (true, none)

module _ (client : Env) (build : Build) (runner : Runner) (program xml : String)
    (rest : List String) where
  -- The state in which `main` runs the command.
  abbrev ready : State → State
  ready s =
      (log_as_configured client (record s { trace = validate_strings (program ∷ []) ∷ s.trace })).1

  main-ask_start :
      (s : State)
      → client.to_lower "start-vm" ≡ "start-vm"
      → (main client build runner program ("start-vm" ∷ xml ∷ rest) s).0 ≡ exited 0
      → (ask client "VirtualMachine.Start" (xml ∷ rest) (ready s)).0 ≡ exited 0
  unfolding main run_args run_case command_of ask_start log_as_configured log_configuration ◌>>=◌
  main-ask_start s lower h = let k = rw lower at h in ground arith

  exit_zero-replied :
      (s : State)
      → (ask client "VirtualMachine.Start" (xml ∷ rest) s).0 ≡ exited 0
      → (client.answer (rpc_call "VirtualMachine.Start" xml) (checked_trace client xml rest s)).0
        ≡ true
  exit_zero-replied s h =
      let eq = (ask-answers client xml rest s "VirtualMachine.Start").0 in ground arith

  -- Where the daemon decodes the XML to a domain whose image lies in the crypto path, wrapping an
  -- error gives an error and the client's reply is the daemon's, a "start-vm" that exits with 0 shows
  -- that the Workload Service has taken a report from the daemon.
  pub start_vm_command-Posted :
      (daemon : Env) (s d : State)
      → WrapsErrors daemon
      → IsEncrypted daemon xml
      → Relays client daemon xml d
      → client.to_lower "start-vm" ≡ "start-vm"
      → (main client build runner program ("start-vm" ∷ xml ∷ rest) s).0 ≡ exited 0
      → Posted daemon (Rpc.start daemon xml false d).1.trace
  start_vm_command-Posted daemon s d wraps e serves lower h =
      start-Posted daemon wraps xml e d none
        (serves _ (exit_zero-replied (ready s) (main-ask_start s lower h)))
