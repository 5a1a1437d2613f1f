-- ===== src/Main/Usage.antt =====
-- main.go: the version and the usage that the command line prints.
use workload_agent.Prelude.{String, ◌<>◌, List, [], ◌∷◌}
use workload_agent.Consts.{explicit_service_name}
use workload_agent.World.{Env, print}
use workload_agent.World.Go.{Func, ◌>>◌, pure, call, body, invoke}

-- What the linker sets: `Version`, `BuildDate` and `GitHash`.
pub record Build : Type 0 where
  pub version : String
  pub build_date : String
  pub git_hash : String

-- `getVersion`
unfoldable pub get_version : Build → String
get_version b =
    "Service Name: "
    <> (explicit_service_name <> "\n")
    <> ("Version: " <> (b.version <> ("-" <> (b.git_hash <> "\n"))))
    <> ("Build Date: " <> (b.build_date <> "\n"))

-- What `printUsage` prints, from the program's name: one text for each statement.
abbrev pub usage : String → List String
usage program =
    "Usage:\n"
    ∷ ("    " <> (program <> " <command> [arguments]\n\n"))
    ∷ "Available Commands:\n"
    ∷ "    help|-help|--help      Show this help message\n"
    ∷ "    -v|--version           Print version/build information\n"
    ∷ "    start                  Start wlagent\n"
    ∷ "    stop                   Stop wlagent\n"
    ∷ "    status                 Reports the status of wlagent service\n"
    ∷ "    uninstall  [--purge]   Uninstall wlagent. --purge option needs to be applied to remove configuration and secureoverlay2 data files\n"
    ∷ "    setup [task]           Run setup task\n"
    ∷ "Available Tasks for setup:\n"
    ∷ "    download_ca_cert       Download CMS root CA certificate\n"
    ∷ "\t\t                           - Option [--force] overwrites any existing files, and always downloads new root CA cert\n"
    ∷ "                           - Environment variable CMS_BASE_URL=<url> for CMS API url\n"
    ∷ "                           - Environment variable CMS_TLS_CERT_SHA384=<CMS TLS cert sha384 hash> to ensure that WLS is talking to the right CMS instance\n"
    ∷ "    SigningKey             Generate a TPM signing key\n"
    ∷ "\t\t                           - Option [--force] overwrites any existing files, and always creates a new Signing key\n"
    ∷ "    BindingKey             Generate a TPM binding key\n"
    ∷ "\t\t                           - Option [--force] overwrites any existing files, and always creates a new Binding key\n"
    ∷ "    RegisterSigningKey     Register a signing key with the host verification service\n"
    ∷ "\t\t                           - Option [--force] Always registers the Signing key with Verification service\n"
    ∷ "                           - Environment variable HVS_URL=<url> for registering the key with Verification service\n"
    ∷ "                           - Environment variable BEARER_TOKEN=<token> for authenticating with Verification service\n"
    ∷ "    RegisterBindingKey     Register a binding key with the host verification service\n"
    ∷ "\t\t                           - Option [--force] Always registers the Binding key with Verification service\n"
    ∷ "                           - Environment variable HVS_URL=<url> for registering the key with Verification service\n"
    ∷ "                           - Environment variable BEARER_TOKEN=<token> for authenticating with Verification service\n"
    ∷ "                           - Environment variable TRUSTAGENT_USERNAME=<TA user> for changing binding key file ownership to TA application user\n"
    ∷ "    update_service_config  Updates service configuration\n"
    ∷ "\t\t                           - Option [--force] overwrites existing server config"
    ∷ "                           - Environment variable WLS_API_URL=<url> Workload Service URL\n"
    ∷ "                           - Environment variable WLA_SERVICE_USERNAME WLA Service Username\n"
    ∷ "                           - Environment variable WLA_SERVICE_PASSWORD WLA Service Password\n"
    ∷ "                           - Environment variable SKIP_FLAVOR_SIGNATURE_VERIFICATION=<true/false> Skip flavor signature verification if set to true\n"
    ∷ "                           - Environment variable LOG_ENTRY_MAXLENGTH=Maximum length of each entry in a log\n"
    ∷ "                           - Environment variable WLA_ENABLE_CONSOLE_LOG=<true/false> Workload Agent Enable standard output\n"
    ∷ []

module _ (env : Env) where
  unfoldable pub print_all : List String → Func (Unit {0})
  print_all [] = body (pure tt)
  print_all (text ∷ texts) = body do invoke env (print text); call (print_all texts)

  -- `printUsage`
  unfoldable pub print_usage : String → Func (Unit {0})
  print_usage program = print_all (usage program)

  -- `printVersion`. The text is a format; the model is for a version with no verb in it.
  unfoldable pub print_version : Build → Func (Unit {0})
  print_version b = body do invoke env (print (get_version b)); pure tt
