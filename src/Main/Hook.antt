-- ===== src/Main/Hook.antt =====
-- main.go: the commands of libvirt's hook, which ask the daemon over its socket.
pub mod Exits
pub mod Confirmed
use workload_agent.Prelude.{String, Bool, is_some, List, [], ◌∷◌, if◌then◌else◌}
use workload_agent.Main.Service.{rpc_socket_file_path}
use workload_agent.World.{Env, dial, close_connection, close_client, validate_xml_string, rpc_call}
use workload_agent.World.Go.{Func, Go, ◌>>=◌, ◌>>◌, exit, deferring, body, invoke, when, discard}

module _ (env : Env) where
  -- `if !state { os.Exit(1) } else { os.Exit(0) }`
  unfoldable pub exit_by : Bool → Go (Unit {0}) (Unit {0})
  exit_by state = if state then exit 0 else exit 1

  -- The cases "start-vm" and "prepare-vm", from the method and the arguments. An error of the call
  -- is only logged; the reply is false before the call.
  unfoldable pub ask : String → List String → Func (Unit {0})
  ask method [] = body (exit 1)
  ask method (xml ∷ _) = body do
    dialed ← invoke env (dial rpc_socket_file_path)
    when (is_some dialed) (exit 1)
    deferring (discard env close_connection) do
      deferring (discard env close_client) do
        invalid ← invoke env (validate_xml_string xml)
        when (is_some invalid) (exit 1)
        reply ← invoke env (rpc_call method xml)
        exit_by reply.0

  -- The case "start-vm"
  unfoldable pub ask_start : List String → Func (Unit {0})
  ask_start arguments = ask "VirtualMachine.Start" arguments

  -- The case "prepare-vm"
  unfoldable pub ask_prepare : List String → Func (Unit {0})
  ask_prepare arguments = ask "VirtualMachine.Prepare" arguments

  -- The case "stop-vm"
  unfoldable pub ask_stop : List String → Func (Unit {0})
  ask_stop [] = body (exit 1)
  ask_stop (xml ∷ _) = body do
    dialed ← invoke env (dial rpc_socket_file_path)
    when (is_some dialed) (exit 1)
    deferring (discard env close_connection) do
      invalid ← invoke env (validate_xml_string xml)
      when (is_some invalid) (exit 1)
      deferring (discard env close_client) do
        reply ← invoke env (rpc_call "VirtualMachine.Stop" xml)
        when (is_some reply.1) (exit 1)
        exit_by reply.0
