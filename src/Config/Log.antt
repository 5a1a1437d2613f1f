-- ===== src/Config/Log.antt =====
-- config/config.go: the log files.
use workload_agent.Prelude.{Bool, true, false, [], ◌∷◌}
use workload_agent.Consts.{security_log_file, default_log_file}
use workload_agent.World.{Env, open_append, chmod, set_logger}
use workload_agent.World.Go.{Func, ◌>>=◌, ◌>>◌, pure, body, invoke, gets}

module _ (env : Env) where
  -- `LogConfiguration`. The errors are only logged.
  unfoldable pub log_configuration : Bool → Func (Unit {0})
  log_configuration is_stdout = body do
    invoke env (open_append security_log_file 0o640)
    invoke env (chmod security_log_file 0o640)
    invoke env (open_append default_log_file 0o640)
    invoke env (chmod default_log_file 0o640)
    level ← gets λ s. s.config.log_level
    length ← gets λ s. s.config.log_max_length
    invoke env (set_logger false level length is_stdout (default_log_file ∷ []))
    invoke env (set_logger true level length is_stdout (default_log_file ∷ security_log_file ∷ []))
    pure tt
