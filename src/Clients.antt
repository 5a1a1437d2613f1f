-- ===== src/Clients.antt =====
-- clients/workload_service_client.go: requests to the Workload Service.
pub mod Errors
pub mod Hvs
use workload_agent.Prelude.{String, ◌<>◌, false, none, some, [], if◌then◌else◌}
use workload_agent.Prelude.Strings.{contains}
use workload_agent.Consts.{trusted_ca_certs_dir}
use workload_agent.Types.{Err, Bytes, Handle, FlavorKey, Configuration}
use workload_agent.World.{
  Env, Call, new_wls_client_factory, flavors_client, reports_client, keys_client,
  wls_get_image_flavor_key, wls_get_image_flavor, wls_post_vm_report, wls_get_key_with_url,
  url_parse,
}
use workload_agent.World.Go.{Func, ◌>>=◌, ◌>>◌, return, body, invoke, gets, value_or, nil_or}

-- `var flavorKeyInfo wlsModel.FlavorKey`
abbrev pub zero_flavor_key : FlavorKey
zero_flavor_key = record {
  meta_id = "";
  encryption_required = false;
  key_url = "";
  flavor = 0;
  signature = "";
  key = [];
}

-- `wlsclient.NewWLSClientFactory` with the arguments from the configuration.
abbrev pub client_factory : Configuration → Call
client_factory c =
    new_wls_client_factory c.wls_api_url c.aas_base_url c.wla_api_username c.wla_api_password
      trusted_ca_certs_dir

module _ (env : Env) where
  -- `GetImageFlavorKey`. An error that mentions 404 is no error.
  unfoldable pub get_image_flavor_key : String → String → Func (FlavorKey × Err)
  get_image_flavor_key image_uuid hardware_uuid = body do
    config ← gets λ s. s.config
    factory_err ← invoke env (client_factory config)
    nil_or factory_err
        λ e. (zero_flavor_key, env.wrap (some e) "Error while instantiating WLSClientFactory")
    client_err ← invoke env flavors_client
    nil_or client_err
        λ e. (zero_flavor_key, env.wrap (some e) "Error while instantiating FlavorsClient")
    received ← invoke env (wls_get_image_flavor_key image_uuid hardware_uuid)
    nil_or received.1 λ e.
        if contains e "404"
        then (received.0, none)
        else (received.0, env.wrap (some e) "Error while retrieving Flavor-Key")
    return (received.0, none)

  -- `GetImageFlavor`
  unfoldable pub get_image_flavor : String → String → Func (Handle × Err)
  get_image_flavor image_id flavor_part = body do
    config ← gets λ s. s.config
    factory_err ← invoke env (client_factory config)
    nil_or factory_err λ e. (0, env.wrap (some e) "Error while instantiating WLSClientFactory")
    client_err ← invoke env flavors_client
    nil_or client_err λ e. (0, env.wrap (some e) "Error while instantiating FlavorsClient")
    received ← invoke env (wls_get_image_flavor image_id flavor_part)
    nil_or received.1 λ e. (received.0, env.wrap (some e) "Error while getting ImageFlavor")
    return (received.0, none)

  -- `PostVMReport`
  unfoldable pub post_vm_report : Bytes → Func Err
  post_vm_report report = body do
    config ← gets λ s. s.config
    factory_err ← invoke env (client_factory config)
    nil_or factory_err λ e. env.wrap (some e) "Error while instantiating WLSClientFactory"
    client_err ← invoke env reports_client
    nil_or client_err λ e. env.wrap (some e) "Error while instantiating ReportsClient"
    posted ← invoke env (wls_post_vm_report report)
    nil_or posted λ e. env.wrap (some e) "Error creating instance trust report"
    return none

  -- `GetKeyWithURL`
  unfoldable pub get_key_with_url : String → String → Func (Bytes × Err)
  get_key_with_url key_url hardware_uuid = body do
    config ← gets λ s. s.config
    api_url ← invoke env (url_parse config.wls_api_url)
    request_url ← value_or api_url λ e.
        ([], some "client/workload_service_client:GetKeyWithURL() error retrieving WLS API URL")
    keys_url ← invoke env (url_parse (request_url <> "keys"))
    value_or keys_url λ e.
        ([], some "client/workload_service_client:GetKeyWithURL() error forming GET key API URL")
    factory_err ← invoke env (client_factory config)
    nil_or factory_err λ e. ([], env.wrap (some e) "Error while instantiating WLSClientFactory")
    client_err ← invoke env keys_client
    nil_or client_err λ e. ([], env.wrap (some e) "Error while instantiating KeysClient")
    received ← invoke env (wls_get_key_with_url key_url hardware_uuid)
    nil_or received.1 λ e. (received.0, env.wrap (some e) "Error while getting key")
    return (received.0, none)
