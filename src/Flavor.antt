-- ===== src/Flavor.antt =====
-- flavor/flavor.go and flavor/key_retrieval.go: image flavors and keys from the Workload Service.
pub mod Keys
use workload_agent.Prelude.{String, List, [], ◌∷◌, Bool, true, false, not, Option, none, some}
use workload_agent.Prelude.{str_eq, is_empty, if◌then◌else◌}
use workload_agent.Prelude.Assoc.{lookup, insert}
use workload_agent.Prelude.Strings.{split}
use workload_agent.Clients.{get_image_flavor_key, get_key_with_url}
use workload_agent.Types.{Bytes}
use workload_agent.World.{Env, hardware_uuid, json_marshal_flavor}
use workload_agent.World.Go.{
  Func, Go, ◌>>=◌, ◌>>◌, some_or_panic, return, call, body, invoke, gets, modify, when, value_or,
  nil_or,
}

-- `parts[len(parts)-2]`, out of range for fewer than two.
abbrev pub last_but_one : List String → Option String
last_but_one [] = none
last_but_one (part ∷ []) = none
last_but_one (part ∷ last ∷ []) = some part
last_but_one (part ∷ next ∷ later ∷ more) = last_but_one (next ∷ later ∷ more)

-- `getKeyID`, which panics on a URL with no slash.
unfoldable pub get_key_id : String → Option String
get_key_id key_url = last_but_one (split key_url "/")

-- `imageKeyID[keyID]`, empty for a key that is not there.
abbrev pub value_or_empty : Option String → String
value_or_empty none = ""
value_or_empty (some image_id) = image_id

module _ (env : Env) where
  -- The bookkeeping of `Fetch` for an image that must be encrypted.
  unfoldable pub remember_key : String → String → Go (String × Bool) (Unit {0})
  remember_key image_id key_url = do
    key_id ← some_or_panic (get_key_id key_url)
    modify λ s. record s { image_key_id = insert key_id image_id s.image_key_id }

  -- `Fetch`
  unfoldable pub fetch : String → Func (String × Bool)
  fetch image_id = body do
    hardware ← invoke env hardware_uuid
    uuid ← value_or hardware λ e. ("", false)
    received ← call (get_image_flavor_key env image_id uuid)
    nil_or received.1 λ e. ("", false)
    let flavor_key_info = received.0
    when (str_eq flavor_key_info.meta_id "") (return ("", true))
    when flavor_key_info.encryption_required do
      remember_key image_id flavor_key_info.key_url
      when (is_empty flavor_key_info.key) (return ("", false))
    marshalled ← invoke env (json_marshal_flavor flavor_key_info.flavor)
    f ← value_or marshalled λ e. ("", false)
    return (f, true)

  -- `RetrieveKey`
  unfoldable pub retrieve_key : String → Func (Bytes × Bool)
  retrieve_key key_id = body do
    found ← gets λ s. lookup key_id s.image_key_id
    let image_uuid = value_or_empty found
    when (str_eq image_uuid "") (return ([], false))
    hardware ← invoke env hardware_uuid
    uuid ← value_or hardware λ e. ([], false)
    received ← call (get_image_flavor_key env image_uuid uuid)
    nil_or received.1 λ e. ([], false)
    let flavor_key_info = received.0
    when (str_eq flavor_key_info.meta_id "") (return ([], true))
    when flavor_key_info.encryption_required do
      when (not (is_empty flavor_key_info.key)) (return (flavor_key_info.key, true))
      return ([], false)
    return ([], false)

  -- `RetrieveKeyWithURL`
  unfoldable pub retrieve_key_with_url : String → Func (Bytes × Bool)
  retrieve_key_with_url key_url = body do
    hardware ← invoke env hardware_uuid
    uuid ← value_or hardware λ e. ([], false)
    received ← call (get_key_with_url env key_url uuid)
    nil_or received.1 λ e. ([], false)
    return (if is_empty received.0 then ([], false) else (received.0, true))
