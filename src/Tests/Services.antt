-- ===== src/Tests/Services.antt =====
-- The theorems on keys, requests, files and settings, on a daemon in the calm world.
use workload_agent.Prelude.{◌≡◌, ◌↔◌, ◌⊎◌, refl, str_eq, true, false, none, [], ◌∷◌}
use workload_agent.Consts.{
  setup_all_command, download_root_ca_cert_command, register_signing_key_command,
  register_binding_key_command,
}
use workload_agent.Clients.Errors.{reports_error, get_image_flavor_key-error}
use workload_agent.Config.Setup.{
  save_configuration, check_all, check_trust_agent, log_level_of, check_cms_config,
  check_hvs_config, save, create_if_absent,
}
use workload_agent.Config.Setup.All.{IsComplete, save_configuration-IsComplete}
use workload_agent.Config.Setup.Steps.{EmptySince}
use workload_agent.Config.Setup.Complete.{IsDefined, save_configuration-IsDefined}
use workload_agent.Flavor.{get_key_id, fetch, retrieve_key}
use workload_agent.Flavor.Keys.{Serves, NamesKey, fetch-retrieve_key, fetch-panics}
use workload_agent.Footprint.Unwrap.{MayUnwrap, un_wrap_key-MayUnwrap}
use workload_agent.Keyprovider.{un_wrap_key}
use workload_agent.Tpm.{unwrap_key}
use workload_agent.Tpm.Connection.{panics, unwrap_key-panics}
use workload_agent.Wlavm.Volume.{user_info_look_up, create_sym_link_and_change_ownership}
use workload_agent.Wlavm.Volume.Links.{DoneFor, create_sym_link-DoneFor}
use workload_agent.Tests.Calm.{
  slashless, slashless_key, stuck, flavor_key, calm, daemon, calm-WrapsErrors,
}
use workload_agent.Wlavm.Prepare.{is_already_decrypted}
use workload_agent.Wlavm.Prepare.Skipping.{is_already_decrypted-false}
use workload_agent.Clients.{get_image_flavor_key}
use workload_agent.Prelude.Strings.{contains, split, trim_space}
use workload_agent.World.{user_lookup}
use workload_agent.Types.{User, ok}
use workload_agent.World.Go.{next, Outcome, returned, ◌>>=◌, discard}
use workload_agent.World.Keeps.{Emits}

un_wrap_key-MayUnwrap_example : Emits MayUnwrap (un_wrap_key calm (1 ∷ []))
un_wrap_key-MayUnwrap_example = un_wrap_key-MayUnwrap calm (1 ∷ [])

unwrap_key-panics_example : panics (unwrap_key calm (1 ∷ []) (daemon [])).0 ≡ false
unwrap_key-panics_example = unwrap_key-panics calm (1 ∷ []) (daemon [])

get_image_flavor_key-error_example :
    reports_error (get_image_flavor_key calm "image" "hardware" (daemon [])).0 ≡ false
get_image_flavor_key-error_example =
    get_image_flavor_key-error calm "image" "hardware" (daemon []) calm-WrapsErrors

stuck-links :
    (create_sym_link_and_change_ownership stuck "/mount/vm/disk" "/vm/disk" "/mount/vm"
      (daemon [])).0
    ≡ returned none
unfolding create_sym_link_and_change_ownership user_info_look_up ◌>>=◌
stuck-links = refl

create_sym_link-DoneFor_example :
    (user : User) × (stuck.answer (user_lookup "qemu") [] ≡ ok user)
    × DoneFor stuck "/mount/vm/disk" "/vm/disk" "/mount/vm"
        (daemon [])
        user
        (create_sym_link_and_change_ownership stuck "/mount/vm/disk" "/vm/disk" "/mount/vm"
          (daemon [])).1.trace
create_sym_link-DoneFor_example =
    create_sym_link-DoneFor stuck "/mount/vm/disk" "/vm/disk" "/mount/vm" (daemon [])
      calm-WrapsErrors stuck-links

calm-Serves : Serves calm "image" "hardware" flavor_key
calm-Serves = record {
  host = λ t. refl;
  factory = λ c t. refl;
  client = λ t. refl;
  answers = λ t. refl;
}

calm-NamesKey : NamesKey flavor_key "key"
unfolding get_key_id split
calm-NamesKey = record { named = refl; encrypted = refl; has_key = refl; key_of = refl }

fetch-retrieve_key_example :
    (retrieve_key calm "key" (fetch calm "image" (daemon [])).1).0 ≡ returned (7 ∷ [], true)
fetch-retrieve_key_example =
    fetch-retrieve_key calm "image" "hardware" flavor_key calm-Serves "key" calm-NamesKey
      (daemon []) refl

save_configuration-IsDefined_example :
    let ca = save_configuration calm download_root_ca_cert_command (daemon []) in
    let signing = save_configuration calm register_signing_key_command (daemon []) in
    let binding = save_configuration calm register_binding_key_command (daemon []) in
    (ca.0 ≡ returned none
      → (IsDefined ca.1.config.cms_base_url × IsDefined ca.1.config.cms_tls_cert_digest)
        ⊎ EmptySince calm [] ca.1.trace)
    × (signing.0 ≡ returned none
        → IsDefined signing.1.config.hvs_api_url ⊎ EmptySince calm [] signing.1.trace)
    × (binding.0 ≡ returned none
        → IsDefined binding.1.config.hvs_api_url ⊎ EmptySince calm [] binding.1.trace)
save_configuration-IsDefined_example =
    save_configuration-IsDefined calm calm-WrapsErrors (daemon [])

slashless-Serves : Serves slashless "image" "hardware" slashless_key
slashless-Serves = record {
  host = λ t. refl;
  factory = λ c t. refl;
  client = λ t. refl;
  answers = λ t. refl;
}

fetch-panics_example : ((fetch slashless "image" (daemon [])).0 ≡ Outcome.panicked) ↔ (
    (str_eq slashless_key.meta_id "" ≡ false)
    × (slashless_key.encryption_required ≡ true)
    × (contains slashless_key.key_url "/" ≡ false))
fetch-panics_example =
    fetch-panics slashless "image" "hardware" slashless_key slashless-Serves (daemon [])

is_already_decrypted-false_example :
    (is_already_decrypted calm "/decrypted" "/image" (daemon [])).0 ≡ next false
is_already_decrypted-false_example =
    is_already_decrypted-false calm "/decrypted" "/image" (daemon []) (λ t. refl)

calm-configures : (save_configuration calm setup_all_command (daemon [])).0 ≡ returned none
unfolding save_configuration check_all check_trust_agent log_level_of check_cms_config
    check_hvs_config save create_if_absent trim_space ◌>>=◌ discard
calm-configures = refl

save_configuration-IsComplete_example :
    let saved = save_configuration calm setup_all_command (daemon []) in
    IsComplete saved.1.config ⊎ EmptySince calm [] saved.1.trace
save_configuration-IsComplete_example =
    save_configuration-IsComplete calm (daemon []) calm-WrapsErrors calm-configures
