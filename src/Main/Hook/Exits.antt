-- ===== src/Main/Hook/Exits.antt =====
-- How libvirt's hook ends (main.go), and what its answer shows of the daemon (rpc/server.go).
use workload_agent.Prelude.{
  ℕ, String, Bool, is_some, ◌≡◌, refl, none, List, [], ◌∷◌, arith, if◌then◌else◌,
}
use workload_agent.Main.Hook.{ask, ask_stop, exit_by}
use workload_agent.Main.Service.{rpc_socket_file_path}
use workload_agent.Types.{Err}
use workload_agent.World.{Env, State, Call, dial, validate_xml_string, rpc_call}
use workload_agent.World.Go.{exited, ◌>>=◌}

-- The command's exit code from what it was told: the errors of the connection, of the XML and of the
-- call, and the reply.
abbrev pub code : Err → Err → Err → Bool → ℕ
code dialed invalid failure reply =
    if is_some dialed
    then 1
    else if is_some invalid
    then 1
    else if is_some failure
    then 1
    else if reply
    then 0
    else 1

module _ (env : Env) (xml : String) (rest : List String) (s : State) where
  abbrev pub dialed_trace : List Call
  dialed_trace = dial rpc_socket_file_path ∷ s.trace

  abbrev pub checked_trace : List Call
  checked_trace = validate_xml_string xml ∷ dialed_trace

  -- The endings where the command has an argument.
  pub ask-answers :
      (method : String)
      → ((ask env method (xml ∷ rest) s).0
          ≡ exited (
              code
                (env.answer (dial rpc_socket_file_path) s.trace)
                (env.answer (validate_xml_string xml) dialed_trace)
                none
                (env.answer (rpc_call method xml) checked_trace).0))
        × ((ask_stop env (xml ∷ rest) s).0
            ≡ exited (
                code
                  (env.answer (dial rpc_socket_file_path) s.trace)
                  (env.answer (validate_xml_string xml) dialed_trace)
                  (env.answer (rpc_call "VirtualMachine.Stop" xml) checked_trace).1
                  (env.answer (rpc_call "VirtualMachine.Stop" xml) checked_trace).0))
  unfolding ask ask_stop exit_by ◌>>=◌
  ask-answers method = (ground arith, ground arith)

-- The exit code of "start-vm" and "prepare-vm" from the method and the arguments.
abbrev pub ask_code : Env → String → List String → State → ℕ
ask_code env method [] s = 1
ask_code env method (xml ∷ rest) s =
    code (env.answer (dial rpc_socket_file_path) s.trace)
      (env.answer (validate_xml_string xml) (dialed_trace env xml rest s)) none
      (env.answer (rpc_call method xml) (checked_trace env xml rest s)).0

-- The exit code of "stop-vm" from its arguments.
abbrev pub stop_code : Env → List String → State → ℕ
stop_code env [] s = 1
stop_code env (xml ∷ rest) s =
    let reply = env.answer (rpc_call "VirtualMachine.Stop" xml) (checked_trace env xml rest s) in
    code (env.answer (dial rpc_socket_file_path) s.trace)
      (env.answer (validate_xml_string xml) (dialed_trace env xml rest s)) reply.1 reply.0

-- "start-vm" and "prepare-vm" never return, whatever their arguments: they exit with 0 where there
-- is a first argument, the daemon was reached, the argument is valid XML and the reply is true,
-- whatever the error of the call, and with 1 otherwise; "stop-vm" does the same, but that an error
-- of the call gives 1.
pub ask-exits :
    (env : Env) (method : String) (arguments : List String) (s : State)
    → ((ask env method arguments s).0 ≡ exited (ask_code env method arguments s))
      × ((ask_stop env arguments s).0 ≡ exited (stop_code env arguments s))
unfolding ask ask_stop ◌>>=◌
ask-exits env method [] s = (refl, refl)
ask-exits env method (xml ∷ rest) s = ask-answers env xml rest s method
