-- ===== src/Main/Service.antt =====
-- main.go: the control of the service through systemd, and the daemon's start.
pub mod Spawning
use workload_agent.Prelude.{
  ℕ, zero, suc, String, ◌<>◌, Bool, true, false, not, is_some, List, [], ◌∷◌,
}
use workload_agent.Association.{load_image_vm_association}
use workload_agent.Config.{is_not_exist, exists}
use workload_agent.Consts.{
  run_dir_path, rpc_socket_file_name, service_start_cmd, service_stop_cmd, service_remove_cmd,
}
use workload_agent.Filewatch.{Notice, new_watcher, watch}
use workload_agent.Tpm.{get_tpm_instance}
use workload_agent.Types.{StatResult, found, watch_events, serve_rpc, serve_grpc}
use workload_agent.World.{
  Env, print, remove_all, run_command, stat, mkdir_all, tpm_close, close_watcher, add_task,
  task_done, spawn, wait_for_quit, remove, listen, close_listener, register_vm, accept_rpc,
  new_grpc_server, register_key_provider, notify_signals, serve_grpc_listener, graceful_stop,
}
use workload_agent.World.Go.{
  Func, Go, ◌>>=◌, ◌>>◌, pure, return, panic, exit, call, deferring, body, invoke, when, nil_or,
  discard,
}

-- `rpcSocketFilePath`, and the variables `RPCSocketFilePath`
abbrev pub rpc_socket_file_path : String
rpc_socket_file_path = run_dir_path <> rpc_socket_file_name

module _ (env : Env) where
  -- `deleteFile`
  unfoldable pub delete_file : String → Func (Unit {0})
  delete_file path = body do
    invoke env (print ("Deleting :  " <> (path <> "\n")))
    invoke env (remove_all path)
    pure tt

  -- `start`
  unfoldable pub start : Func (Unit {0})
  start = body do
    invoke env (print "Forwarding to \"systemctl start wlagent\"\n")
    ran ← invoke env (run_command service_start_cmd 5)
    when (is_some ran.error) (exit 1)

  -- `stop`
  unfoldable pub stop : Func (Unit {0})
  stop = body do
    invoke env (print "Forwarding to \"systemctl stop wlagent\"\n")
    ran ← invoke env (run_command service_stop_cmd 12)
    when (is_some ran.error) (exit 1)

  -- `removeservice`
  unfoldable pub removeservice : Func (Unit {0})
  removeservice = body do
    invoke env (run_command service_remove_cmd 12)
    invoke env (print "Workload Agent Service Removed...\n")
    pure tt

  -- The run directory is made where it is not there. `Fatalf` exits with 1.
  unfoldable pub make_run_dir : Go (Unit {0}) (Unit {0})
  make_run_dir = do
    info ← invoke env (stat run_dir_path)
    when (is_not_exist info)
        do made ← invoke env (mkdir_all run_dir_path 0o600); when (is_some made) (exit 1)

  -- `AddTask` before a goroutine
  unfoldable pub begin : Go (Unit {0}) (Unit {0})
  begin = do added ← invoke env (add_task false); when (is_some added) (exit 1)

  -- `runservice`. The goroutines that it starts are the functions below.
  unfoldable pub runservice : Func (Unit {0})
  runservice = body do
    make_run_dir
    load_err ← call (load_image_vm_association env)
    when (is_some load_err) (exit 1)
    vtpm ← call (get_tpm_instance env)
    when (is_some vtpm.1) (exit 1)
    when (not vtpm.0) panic
    invoke env tpm_close
    watcher_err ← call (new_watcher env)
    when (is_some watcher_err) (exit 1)
    deferring (discard env close_watcher) do
      begin
      invoke env (spawn watch_events)
      make_run_dir
      begin
      invoke env (spawn serve_rpc)
      invoke env wait_for_quit
      pure tt

  -- The goroutine of the watcher, on the notices that each call of `Watch` receives. The deferred
  -- `TaskDone` is not reached: the loop has no end.
  unfoldable pub watch_rounds : List (List Notice) → Func (Unit {0})
  watch_rounds [] = body (pure tt)
  watch_rounds (notices ∷ later) = body do call (watch env notices); call (watch_rounds later)

  -- The endless loop over `Accept`, on how often it returns.
  unfoldable pub accept_all : ℕ → Func (Unit {0})
  accept_all zero = body (pure tt)
  accept_all (suc rounds) = body do invoke env accept_rpc; call (accept_all rounds)

  -- The goroutine of the RPC service. The deferred calls run on the early returns alone: the loop
  -- has no end.
  unfoldable pub serve_rpc_methods : ℕ → Func (Unit {0})
  serve_rpc_methods rounds = body do
    info ← invoke env (stat rpc_socket_file_path)
    when (exists info) do invoke env (remove rpc_socket_file_path); pure tt
    listening ← invoke env (listen rpc_socket_file_path)
    when (is_some listening) do invoke env task_done; return tt
    registered ← invoke env register_vm
    when (is_some registered) do invoke env close_listener; invoke env task_done; return tt
    call (accept_all rounds)

  -- `runGRPCService`
  unfoldable pub run_grpc_service : Func (Unit {0})
  run_grpc_service = body do
    info ← invoke env (stat rpc_socket_file_path)
    when (exists info)
        do removed ← invoke env (remove rpc_socket_file_path); when (is_some removed) (exit 1)
    make_run_dir
    listening ← invoke env (listen rpc_socket_file_path)
    nil_or listening λ e. tt
    deferring (discard env close_listener) do
      is_server ← invoke env new_grpc_server
      when (not is_server) (exit 1)
      invoke env register_key_provider
      invoke env notify_signals
      begin
      invoke env (spawn serve_grpc)
      invoke env wait_for_quit
      invoke env graceful_stop
      pure tt

  -- The goroutine of the gRPC service.
  unfoldable pub serve_key_provider : Func (Unit {0})
  serve_key_provider = body do
    deferring (discard env task_done)
        do served ← invoke env serve_grpc_listener; when (is_some served) (exit 1)
