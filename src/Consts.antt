-- ===== src/Consts.antt =====
-- consts/constants.go: the paths, file names and command words of the agent.
use workload_agent.Prelude.{ℕ, String, ◌<>◌}

abbrev pub dev_mapper_dir_path : String
dev_mapper_dir_path = "/dev/mapper/"

abbrev pub mount_path : String
mount_path = "/mnt/workload-agent/crypto/"

abbrev pub config_dir_path : String
config_dir_path = "/etc/workload-agent/"

abbrev pub run_dir_path : String
run_dir_path = "/var/run/workload-agent/"

abbrev pub image_vm_count_association_file_name : String
image_vm_count_association_file_name = "image_vm_association"

abbrev pub binding_key_file_name : String
binding_key_file_name = "bindingkey.json"

abbrev pub signing_key_file_name : String
signing_key_file_name = "signingkey.json"

abbrev pub signing_key_pem_file_name : String
signing_key_pem_file_name = "signingkey.pem"

abbrev pub trusted_ca_certs_dir : String
trusted_ca_certs_dir = config_dir_path <> "certs/trustedca/"

abbrev pub flavor_signing_cert_dir : String
flavor_signing_cert_dir = config_dir_path <> "certs/flavorsign/"

abbrev pub qemu_img_util_path : String
qemu_img_util_path = "/usr/bin/qemu-img"

abbrev pub qemu_img_info_backing_file_field : String
qemu_img_info_backing_file_field = "backing file"

abbrev pub qemu_img_info_virtual_size_field : String
qemu_img_info_virtual_size_field = "virtual size"

abbrev pub qemu_img_info_file_format_field : String
qemu_img_info_file_format_field = "file format"

-- `fmt.Sprintf(GetImgInfoCmd, path)`
abbrev pub get_img_info_cmd : String → String
get_img_info_cmd path = "info " <> (path <> " --force-share")

-- `fmt.Sprintf(CreateVmDiskCmd, format, backing_file, backing_fmt, path)`
abbrev pub create_vm_disk_cmd : String → String → String → String → String
create_vm_disk_cmd format backing_file backing_fmt path =
    "create -f "
    <> (format
        <> (" -o backing_file="
            <> (backing_file <> (",backing_fmt=" <> (backing_fmt <> (" " <> path))))))

-- `fmt.Sprintf(ResizeVmDiskCmd, path, size)`
abbrev pub resize_vm_disk_cmd : String → String → String
resize_vm_disk_cmd path size = "resize " <> (path <> (" " <> size))

abbrev pub min_log_entry_maxlength : ℕ
min_log_entry_maxlength = 100

abbrev pub default_log_entry_maxlength : ℕ
default_log_entry_maxlength = 300

abbrev pub config_file_name : String
config_file_name = "config.yml"

abbrev pub hvs_url_env : String
hvs_url_env = "HVS_URL"

abbrev pub cms_tls_cert_digest_env : String
cms_tls_cert_digest_env = "CMS_TLS_CERT_SHA384"

abbrev pub aas_url : String
aas_url = "AAS_API_URL"

abbrev pub cms_base_url_env : String
cms_base_url_env = "CMS_BASE_URL"

abbrev pub log_level_env_var : String
log_level_env_var = "LOG_LEVEL"

abbrev pub ta_config_dir_env_var : String
ta_config_dir_env_var = "TRUSTAGENT_CONFIGURATION"

abbrev pub ta_user_name_env_var : String
ta_user_name_env_var = "TRUSTAGENT_USERNAME"

abbrev pub ta_aik_pem_file_name : String
ta_aik_pem_file_name = "aik.pem"

abbrev pub default_trustagent_user : String
default_trustagent_user = "tagent"

abbrev pub default_trustagent_configuration : String
default_trustagent_configuration = "/opt/trustagent/configuration"

abbrev pub setup_all_command : String
setup_all_command = "all"

abbrev pub download_root_ca_cert_command : String
download_root_ca_cert_command = "download_ca_cert"

abbrev pub register_signing_key_command : String
register_signing_key_command = "RegisterSigningKey"

abbrev pub register_binding_key_command : String
register_binding_key_command = "RegisterBindingKey"

abbrev pub pem_certificate_header : String
pem_certificate_header = "CERTIFICATE"

abbrev pub binding_key_pem_file_name : String
binding_key_pem_file_name = "bindingkey.pem"

abbrev pub bearer_token_env : String
bearer_token_env = "BEARER_TOKEN"

abbrev pub wls_api_url_env : String
wls_api_url_env = "WLS_API_URL"

abbrev pub wla_username_env : String
wla_username_env = "WLA_SERVICE_USERNAME"

abbrev pub wla_password_env : String
wla_password_env = "WLA_SERVICE_PASSWORD"

abbrev pub skip_flavor_signature_verification_env : String
skip_flavor_signature_verification_env = "SKIP_FLAVOR_SIGNATURE_VERIFICATION"

abbrev pub log_entry_maxlength_env : String
log_entry_maxlength_env = "LOG_ENTRY_MAXLENGTH"

abbrev pub enable_console_log_env : String
enable_console_log_env = "WLA_ENABLE_CONSOLE_LOG"

abbrev pub update_service_config_command : String
update_service_config_command = "update_service_config"

abbrev pub create_binding_key_task : String
create_binding_key_task = "BindingKey"

abbrev pub create_signing_key_task : String
create_signing_key_task = "SigningKey"

abbrev pub explicit_service_name : String
explicit_service_name = "Workload Agent"

abbrev pub rpc_socket_file_name : String
rpc_socket_file_name = "wlagent.sock"

abbrev pub wlagent_sym_link : String
wlagent_sym_link = "/usr/local/bin/wlagent"

abbrev pub opt_dir_path : String
opt_dir_path = "/opt/workload-agent/"

abbrev pub libvirt_hook_file_path : String
libvirt_hook_file_path = "/etc/libvirt/hooks/qemu"

abbrev pub log_dir_path : String
log_dir_path = "/var/log/workload-agent/"

abbrev pub security_log_file : String
security_log_file = log_dir_path <> "workload-agent-security.log"

abbrev pub default_log_file : String
default_log_file = log_dir_path <> "workload-agent.log"

abbrev pub service_start_cmd : String
service_start_cmd = "systemctl start wlagent"

abbrev pub service_stop_cmd : String
service_stop_cmd = "systemctl stop wlagent"

abbrev pub service_status_cmd : String
service_status_cmd = "systemctl status wlagent"

abbrev pub service_remove_cmd : String
service_remove_cmd = "systemctl disable wlagent"
