-- ===== src/Main/Tasks.antt =====
-- main.go: the case "setup", which runs setup tasks.
use workload_agent.Prelude.{String, true, not, is_some, List, [], ◌∷◌, str_eq, if◌then◌else◌}
use workload_agent.Config.Setup.{save_configuration}
use workload_agent.Consts.{
  setup_all_command, download_root_ca_cert_command, register_signing_key_command,
  register_binding_key_command, update_service_config_command, create_binding_key_task,
  create_signing_key_task, trusted_ca_certs_dir,
}
use workload_agent.Main.Usage.{print_usage}
use workload_agent.Setup
use workload_agent.Setup.UpdateServiceConfig.{is_one_of}
use workload_agent.Types.{Err}
use workload_agent.World.{Env, new_tpm_factory, print}
use workload_agent.World.Go.{Func, ◌>>=◌, ◌>>◌, exit, call, body, invoke, gets, when}

-- `csetup.Task`
pub record Task : Type 0 where
  pub run : Func Err
  pub validate : Func Err

-- What package setup of the common library gives: `Download_Ca_Cert` from its flags, the URL of the
-- CMS, the directory and the digest, and `Runner.RunTasks` of a runner with the given tasks.
pub record Runner : Type 0 where
  pub download_ca_cert : List String → String → String → String → Task
  pub run_tasks : List Task → List String → Func Err

abbrev pub task_names : List String
task_names =
    setup_all_command ∷ download_root_ca_cert_command ∷ register_signing_key_command
    ∷ register_binding_key_command ∷ update_service_config_command ∷ create_binding_key_task
    ∷ create_signing_key_task ∷ []

module _ (env : Env) (runner : Runner) where
  -- The runner's tasks, from the flags, the URL of the CMS and the digest of its certificate.
  abbrev pub tasks : List String → String → String → List Task
  tasks flags cms_base_url digest =
      runner.download_ca_cert flags cms_base_url trusted_ca_certs_dir digest
      ∷ record {
        run = Setup.SigningKey.run env flags true;
        validate = Setup.SigningKey.validate env;
      }
      ∷ record {
        run = Setup.BindingKey.run env flags true;
        validate = Setup.BindingKey.validate env;
      }
      ∷ record {
        run = Setup.RegisterBindingKey.run env flags;
        validate = Setup.RegisterBindingKey.validate env;
      }
      ∷ record {
        run = Setup.RegisterSigningKey.run env flags;
        validate = Setup.RegisterSigningKey.validate env;
      }
      ∷ record {
        run = Setup.UpdateServiceConfig.run env flags;
        validate = Setup.UpdateServiceConfig.validate env;
      }
      ∷ []

  -- The case "setup", from the program's name and the arguments behind "setup".
  unfoldable pub setup : String → List String → Func (Unit {0})
  setup program [] = body do call (print_usage env program); exit 1
  setup program (task_name ∷ flags) = body do
    when (not (is_one_of task_name task_names)) do call (print_usage env program); exit 1
    saved ← call (save_configuration env task_name)
    when (is_some saved) (exit 1)
    factory_err ← invoke env new_tpm_factory
    when (is_some factory_err)
        do invoke env (print "Error while creating the tpm factory.\n"); exit 1
    c ← gets λ s. s.config
    ran ← call (
        runner.run_tasks (tasks flags c.cms_base_url c.cms_tls_cert_digest)
          (if str_eq task_name setup_all_command then [] else (task_name ∷ flags)))
    when (is_some ran) (exit 1)
