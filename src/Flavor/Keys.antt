-- ===== src/Flavor/Keys.antt =====
-- A fetch of an encrypted image lets its key be retrieved (flavor/flavor.go,
-- flavor/key_retrieval.go).
use workload_agent.Prelude.{
  String, true, false, List, ◌≡◌, refl, none, some, ◌∷◌, str_eq, is_empty, arith, eq_refl,
}
use workload_agent.Prelude.{◌↔◌, ◌∙◌, is_some, []}
use workload_agent.Prelude.Strings.{contains, split}
use workload_agent.Prelude.Strings.Split.{has_two, split-contains}
use workload_agent.Prelude.Assoc.{lookup, insert, lookup-insert}
use workload_agent.Clients.{get_image_flavor_key, client_factory}
use workload_agent.Flavor.{last_but_one, get_key_id, remember_key, fetch, retrieve_key}
use workload_agent.Types.{Configuration, FlavorKey, ok}
use workload_agent.World.{Env, State, Call, hardware_uuid, flavors_client, wls_get_image_flavor_key}
use workload_agent.World.Go.{◌>>=◌, returned, Outcome}

last_but_one-has_two : (l : List String) → is_some (last_but_one l) ≡ has_two l
last_but_one-has_two [] = refl
last_but_one-has_two (a ∷ []) = refl
last_but_one-has_two (a ∷ b ∷ []) = refl
last_but_one-has_two (a ∷ b ∷ c ∷ l) = last_but_one-has_two (b ∷ c ∷ l)

-- A URL has a key ID just where there is a slash in it.
key_id-contains : (url : String) → is_some (get_key_id url) ≡ contains url "/"
unfolding get_key_id
key_id-contains url = last_but_one-has_two (split url "/") ∙ split-contains "/" url refl

-- A Workload Service that can be reached and answers for the image with the flavor and key, on a
-- host of the hardware UUID.
pub record Serves (env : Env) (image hardware : String) (fk : FlavorKey) : Type 0 where
  pub host : (t : List Call) → env.answer hardware_uuid t ≡ ok hardware
  pub factory : (c : Configuration) (t : List Call) → env.answer (client_factory c) t ≡ none
  pub client : (t : List Call) → env.answer flavors_client t ≡ none
  pub answers :
      (t : List Call) → env.answer (wls_get_image_flavor_key image hardware) t ≡ (fk, none)

-- The flavor is there, and asks for an encrypted image whose key has the given ID and is not empty.
pub record NamesKey (fk : FlavorKey) (key_id : String) : Type 0 where
  pub named : str_eq fk.meta_id "" ≡ false
  pub encrypted : fk.encryption_required ≡ true
  pub has_key : is_empty fk.key ≡ false
  pub key_of : get_key_id fk.key_url ≡ some key_id

module _ (env : Env) (image hardware : String) (fk : FlavorKey)
    (serves : Serves env image hardware fk) where
  flavor_key-served :
      (s : State)
      → get_image_flavor_key env image hardware s ≡ (
        returned (fk, none),
        record s {
          trace =
              wls_get_image_flavor_key image hardware
              ∷ flavors_client
              ∷ client_factory s.config
              ∷ s.trace;
        },
      )
  unfolding get_image_flavor_key ◌>>=◌
  flavor_key-served s =
      rw
        (
          serves.factory s.config s.trace,
          serves.client (client_factory s.config ∷ s.trace),
          serves.answers,
        )
        refl

  module _ (key_id : String) (names : NamesKey fk key_id) where
    fetch-remembers :
        (s : State) → (fetch env image s).1.image_key_id ≡ insert key_id image s.image_key_id
    unfolding fetch remember_key ◌>>=◌
    fetch-remembers s =
        rw
          (
            serves.host s.trace,
            flavor_key-served (record s { trace = hardware_uuid ∷ s.trace }),
            names.named,
            names.encrypted,
            names.key_of,
            names.has_key,
          )
          (ground arith)

    retrieve-remembered :
        (s : State)
        → lookup key_id s.image_key_id ≡ some image
        → str_eq image "" ≡ false
        → (retrieve_key env key_id s).0 ≡ returned (fk.key, true)
    unfolding retrieve_key ◌>>=◌
    retrieve-remembered s there image_named =
        rw
          (
            there,
            image_named,
            serves.host s.trace,
            flavor_key-served (record s { trace = hardware_uuid ∷ s.trace }),
            names.named,
            names.encrypted,
            names.has_key,
          )
          refl

    -- Where the Workload Service answers for an image that is not named "" with a flavor that asks
    -- for encryption, a key that is not empty and a URL with the key's ID, `RetrieveKey` of that
    -- ID, after a `Fetch` of the image, gives the key.
    pub fetch-retrieve_key :
        (s : State)
        → str_eq image "" ≡ false
        → (retrieve_key env key_id (fetch env image s).1).0 ≡ returned (fk.key, true)
    fetch-retrieve_key s image_named =
        retrieve-remembered (fetch env image s).1
          (rw (fetch-remembers s, lookup-insert, eq_refl key_id) refl) image_named

  -- Where the Workload Service answers for an image, `Fetch` of the image panics just where the
  -- flavor is named and asks for encryption, and there is no slash in the URL of its key.
  pub fetch-panics :
      (s : State)
      → ((fetch env image s).0 ≡ Outcome.panicked) ↔ (
          (str_eq fk.meta_id "" ≡ false)
          × (fk.encryption_required ≡ true)
          × (contains fk.key_url "/" ≡ false))
  unfolding fetch remember_key ◌>>=◌
  fetch-panics s =
      let e = key_id-contains fk.key_url in
      rw (serves.host s.trace, flavor_key-served (record s { trace = hardware_uuid ∷ s.trace }))
        (ground arith)
