-- ===== src/Main.antt =====
-- main.go: the command line of the agent.
pub mod Usage
pub mod Service
pub mod Hook
pub mod Tasks
pub mod Removal
use workload_agent.Prelude.{
  String, ◌<>◌, Bool, true, false, not, is_some, List, [], ◌∷◌, str_eq, if◌then◌else◌,
}
use workload_agent.Config.Log.{log_configuration}
use workload_agent.Consts.{
  wlagent_sym_link, opt_dir_path, libvirt_hook_file_path, log_dir_path, run_dir_path, mount_path,
  config_dir_path, service_status_cmd,
}
use workload_agent.Main.Hook.{ask_start, ask_prepare, ask_stop}
use workload_agent.Main.Service.{
  delete_file, start, stop, removeservice, runservice, run_grpc_service,
}
use workload_agent.Main.Tasks.{Runner, setup}
use workload_agent.Main.Usage.{Build, print_usage, print_version}
use workload_agent.Setup.UpdateServiceConfig.{is_one_of}
use workload_agent.World.{Env, validate_strings, print, run_command}
use workload_agent.World.Go.{Func, Go, ◌>>=◌, ◌>>◌, pure, exit, call, body, invoke, gets, when}

-- The cases of the switch on the command.
pub data Command : Type 0 where
  version setup_tasks run_service run_grpc start_service stop_service status : Command
  start_vm prepare_vm stop_vm uninstall_agent help : Command
  unrecognized : String → Command

-- `switch arg`
unfoldable pub command_of : String → Command
command_of arg =
    if is_one_of arg ("--version" ∷ "-v" ∷ [])
    then version
    else if str_eq arg "setup"
    then setup_tasks
    else if str_eq arg "runservice"
    then run_service
    else if str_eq arg "rungrpcservice"
    then run_grpc
    else if str_eq arg "start"
    then start_service
    else if str_eq arg "stop"
    then stop_service
    else if str_eq arg "status"
    then status
    else if str_eq arg "start-vm"
    then start_vm
    else if str_eq arg "prepare-vm"
    then prepare_vm
    else if str_eq arg "stop-vm"
    then stop_vm
    else if str_eq arg "uninstall"
    then uninstall_agent
    else if is_one_of arg ("help" ∷ "-help" ∷ "--help" ∷ [])
    then help
    else unrecognized arg

module _ (env : Env) where
  -- The case "status"
  unfoldable pub print_status : Func (Unit {0})
  print_status = body do
    invoke env (print "Workload Agent Status\n")
    ran ← invoke env (run_command service_status_cmd 2)
    invoke env (print (ran.stdout <> "\n"))
    when (not (str_eq ran.stderr "")) do invoke env (print (ran.stderr <> "\n")); pure tt

  -- `len(args) > 1 && strings.ToLower(args[1]) == "--purge"`
  unfoldable pub purges : List String → Bool
  purges [] = false
  purges (option ∷ _) = str_eq (env.to_lower option) "--purge"

  -- The case "uninstall", behind the log files.
  unfoldable pub uninstall : List String → Func (Unit {0})
  uninstall arguments = body do
    call (stop env)
    call (removeservice env)
    call (delete_file env wlagent_sym_link)
    call (delete_file env opt_dir_path)
    call (delete_file env libvirt_hook_file_path)
    call (delete_file env log_dir_path)
    call (delete_file env run_dir_path)
    call (delete_file env mount_path)
    when (purges arguments) do call (delete_file env config_dir_path)

  -- The log files, with the standard output as the configuration says.
  unfoldable pub log_as_configured : Func (Unit {0})
  log_as_configured =
      body
        do is_stdout ← gets λ s. s.config.log_enable_stdout; call (log_configuration env is_stdout)

  -- The switch on the command, from the program's name and the arguments behind the command.
  unfoldable pub run_case : Build → Runner → String → Command → List String → Func (Unit {0})
  run_case build runner program version arguments = print_version env build
  run_case build runner program setup_tasks arguments =
      body do call log_as_configured; call (setup env runner program arguments)
  run_case build runner program run_service arguments =
      body do call log_as_configured; call (runservice env)
  run_case build runner program run_grpc arguments =
      body do call log_as_configured; call (run_grpc_service env)
  run_case build runner program start_service arguments = start env
  run_case build runner program stop_service arguments = stop env
  run_case build runner program status arguments = print_status
  run_case build runner program start_vm arguments =
      body do call log_as_configured; call (ask_start env arguments)
  run_case build runner program prepare_vm arguments =
      body do call log_as_configured; call (ask_prepare env arguments)
  run_case build runner program stop_vm arguments =
      body do call log_as_configured; call (ask_stop env arguments)
  run_case build runner program uninstall_agent arguments =
      body do call (log_configuration env false); call (uninstall arguments)
  run_case build runner program (unrecognized arg) arguments = body do
    call (log_configuration env false)
    invoke env (print ("Unrecognized option : " <> (arg <> "\n")))
    call (print_usage env program)
  run_case build runner program help arguments = print_usage env program

  unfoldable pub run_args : Build → Runner → String → List String → Func (Unit {0})
  run_args build runner program [] =
      body do invoke env (print "Command not found. Usage below\n"); call (print_usage env program)
  run_args build runner program (arg ∷ arguments) =
      run_case build runner program (command_of (env.to_lower arg)) arguments

  -- `main`, from `os.Args`: the program's name and the arguments.
  unfoldable pub main : Build → Runner → String → List String → Func (Unit {0})
  main build runner program args = body do
    invalid ← invoke env (validate_strings (program ∷ []))
    when (is_some invalid) (exit 1)
    call (run_args build runner program args)
