-- ===== src/Main/Removal.antt =====
-- What "uninstall" removes (main.go).
use workload_agent.Prelude.{String, is_some, ◌≡◌, List, [], ◌∷◌, ◌++◌, arith, if◌then◌else◌}
use workload_agent.Consts.{
  wlagent_sym_link, opt_dir_path, libvirt_hook_file_path, log_dir_path, run_dir_path, mount_path,
  config_dir_path, service_stop_cmd,
}
use workload_agent.Main.{uninstall, purges}
use workload_agent.Main.Service.{delete_file, stop, removeservice}
use workload_agent.World.{Env, State, Call, print, remove_all, run_command}
use workload_agent.World.Go.{returned, exited, ◌>>=◌}

-- The paths that the calls removed, the latest first.
abbrev pub removals : List Call → List String
removals [] = []
removals (remove_all path ∷ t) = path ∷ removals t
removals (_ ∷ t) = removals t

-- What is removed in any case, the latest first.
abbrev pub program_paths : List String
program_paths =
    mount_path ∷ run_dir_path ∷ log_dir_path ∷ libvirt_hook_file_path ∷ opt_dir_path
    ∷ wlagent_sym_link ∷ []

module _ (env : Env) where
  -- "uninstall" exits with 1 where the service cannot be stopped, and then removes nothing; else it
  -- returns, has removed the program's six paths, in the order of the code, and behind them the
  -- configuration directory with its keys only where its first argument is --purge in any case.
  pub uninstall-removals :
      (arguments : List String) (s : State)
      → let stopped =
          env.answer
            (run_command service_stop_cmd 12)
            (print "Forwarding to \"systemctl stop wlagent\"\n" ∷ s.trace) in
        let r = uninstall env arguments s in
        (r.0 ≡ (if is_some stopped.error then exited 1 else returned tt))
        × (removals r.1.trace ≡ (
            if is_some stopped.error
            then removals s.trace
            else if purges env arguments
            then config_dir_path ∷ (program_paths ++ removals s.trace)
            else program_paths ++ removals s.trace))
  unfolding uninstall stop removeservice delete_file ◌>>=◌
  uninstall-removals arguments s = ground arith
