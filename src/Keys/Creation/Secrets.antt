-- ===== src/Keys/Creation/Secrets.antt =====
-- What the creation of a key changes in the configuration, and the key's file
-- (common/key_creation.go).
use workload_agent.Prelude.{
  String, ◌<>◌, ◌≡◌, ◌≢◌, not, ◌⊎◌, ◌∙◌, inl, inr, refl, false, true, Option, none, some, ◌∷◌,
  arith,
}
use workload_agent.Association.Persistence.{WrapsErrors}
use workload_agent.Config.Setup.{save}
use workload_agent.Config.Setup.Complete.{save-Keeps}
use workload_agent.Consts.{config_dir_path}
use workload_agent.Keys.Creation.{
  is_unknown, with_secret, key_file_name, create_with_secret, create_key, write_key,
  write_certified_key_to_disk, written_after, generate_key, validate_key,
}
use workload_agent.Keys.Hex.{encode_hex}
use workload_agent.Types.{
  Err, Bytes, Result, ok, err, CertifiedKey, Configuration, FileInfo, KeyUsage, binding, signing,
  other, found, missing, unreadable, StatResult,
}
use workload_agent.World.{Env, State, Call, stat, get_random_bytes, new_tpm_provider, tpm_close}
use workload_agent.World.Go.{
  Outcome, returned, continue, resume, settle, Go, ◌>>=◌, ◌>>◌, return, panic, call, deferring,
  body, invoke, when, nil_or, discard,
}
use workload_agent.World.Keeps.{Keeps, Keeps-body, keeps_rules}

abbrev pub key_path : KeyUsage → String
key_path usage = config_dir_path <> key_file_name usage

module _ (env : Env) where
  found_of :
      (usage : KeyUsage) (s : State)
      → WrapsErrors env
      → (r : StatResult) → env.answer (stat (key_path usage)) s.trace ≡ r
      → (validate_key env usage s).0 ≡ returned none
      → (info : FileInfo) × (env.answer (stat (key_path usage)) s.trace ≡ found info)
  unfolding validate_key ◌>>=◌
  found_of usage s wraps (found info) e h = (info, e)
  found_of usage s wraps missing e h = grind (arith, e, wraps)
  found_of usage s wraps (unreadable x) e h = grind (arith, e, wraps)

  -- Where wrapping an error gives an error, `ValidateKey` accepts a key exactly where `os.Stat`
  -- finds its path, whatever kind of file is there.
  pub validate_key-found :
      (usage : KeyUsage) (s : State)
      → WrapsErrors env
      → ((info : FileInfo)
          → env.answer (stat (key_path usage)) s.trace ≡ found info
          → (validate_key env usage s).0 ≡ returned none)
        × ((validate_key env usage s).0 ≡ returned none
            → (info : FileInfo) × (env.answer (stat (key_path usage)) s.trace ≡ found info))
  unfolding validate_key ◌>>=◌
  validate_key-found usage s wraps = (λ info e. rw e refl, λ h. found_of usage s wraps _ refl h)

  -- The configuration after a step: as it was, or with a new secret for the keys of the usage.
  abbrev pub NewSecret : KeyUsage → State → Configuration → Type 0
  NewSecret usage s c =
      (bytes : Bytes) × (env.answer (get_random_bytes 20) s.trace ≡ ok bytes)
      × (c ≡ with_secret usage (encode_hex bytes) s.config)

  -- `createKey` after it has replaced the secret.
  create_rest : KeyUsage → Go (Option CertifiedKey × Err) (Option CertifiedKey × Err)
  create_rest usage = do
    tpm ← invoke env new_tpm_provider
    nil_or tpm.1 λ e. (none, env.wrap (some e) "error while getting tpm provider")
    when (not tpm.0) panic
    deferring (discard env tpm_close) do
      created ← create_with_secret env usage
      nil_or created.1 λ e. (none, some e)
      saved ← call (save env)
      nil_or saved λ e. (none, some e)
      return (created.0, none)

  module _ (c : Configuration) where
    invoke-config {ℓ} : {R : Type ℓ} (a : Call) → Keeps (λ s. s.config ≡ c) (invoke {R = R} env a)
    unfolding invoke
    invoke-config a = record { at = λ s h. h }

    discard-config : (a : Call) → Keeps (λ s. s.config ≡ c) (discard env a)
    unfolding discard
    discard-config a = record { at = λ s h. h }

    ruleset rules = (keeps_rules, invoke-config, discard-config)

    create_with_secret-config :
        (usage : KeyUsage) → Keeps (λ s. s.config ≡ c) (create_with_secret env usage)
    unfolding create_with_secret ◌>>=◌
    create_with_secret-config binding = search rules depth 40
    create_with_secret-config signing = search rules depth 40
    create_with_secret-config (other n) = search rules depth 40

    create_rest-config : (usage : KeyUsage) → Keeps (λ s. s.config ≡ c) (create_rest usage)
    unfolding create_rest
    create_rest-config usage =
        let saves = save-Keeps env (λ d. d ≡ c) in
        search (rules, create_with_secret-config) depth 40

    write-config :
        (key : Option CertifiedKey) (path : String)
        → Keeps (λ s. s.config ≡ c) (write_certified_key_to_disk env key path)
    unfolding write_certified_key_to_disk write_key
    write-config none path = search rules depth 40
    write-config (some key) path = search rules depth 40

    written_after-config :
        (usage : KeyUsage) (created : Option CertifiedKey × Err)
        → Keeps (λ s. s.config ≡ c) (written_after env usage created)
    unfolding written_after
    written_after-config usage created = search (rules, write-config) depth 40

    generated-config :
        (usage : KeyUsage) (r : Outcome (Option CertifiedKey × Err) × State)
        → r.1.config ≡ c
        → (settle (continue (resume r) (written_after env usage))).1.config ≡ c
    unfolding body
    generated-config usage (returned created, s) h =
        (Keeps-body _ (written_after-config usage created)).at s h
    generated-config usage (Outcome.panicked, s) h = h
    generated-config usage (Outcome.exited n, s) h = h

  create_key-with_secret :
      (usage : KeyUsage) (s : State) (bytes : Bytes)
      → is_unknown usage ≡ false
      → env.answer (get_random_bytes 20) s.trace ≡ ok bytes
      → (create_key env usage s).1.config ≡ with_secret usage (encode_hex bytes) s.config
  unfolding create_key create_rest ◌>>=◌ body
  create_key-with_secret usage s bytes known eq =
      rw (known, eq)
        ((Keeps-body (create_rest usage) (create_rest-config _ usage)).at
          (record s {
            trace = get_random_bytes 20 ∷ s.trace;
            config = with_secret usage (encode_hex bytes) s.config;
          })
          refl)

  create_key-same :
      (usage : KeyUsage) (s : State) (e : String)
      → is_unknown usage ≡ false
      → env.answer (get_random_bytes 20) s.trace ≡ err e
      → ((create_key env usage s).1.config ≡ s.config)
        × ((key : Option CertifiedKey) → (create_key env usage s).0 ≢ returned (key, none))
  unfolding create_key ◌>>=◌
  create_key-same usage s e known eq =
      (rw (known, eq) refl, λ key h. let k = rw (known, eq) at h in cc)

  generate_key-same :
      (usage : KeyUsage) (s : State)
      → is_unknown usage ≡ false
      → (generate_key env usage true s).1.config ≡ (create_key env usage s).1.config
  unfolding generate_key ◌>>=◌ written_after
  generate_key-same usage s known =
      rw known
        (generated-config (create_key env usage s).1.config usage (create_key env usage s) refl)

  generate_key-config_of :
      (usage : KeyUsage) (s : State) (r : Result Bytes)
      → is_unknown usage ≡ false
      → env.answer (get_random_bytes 20) s.trace ≡ r
      → let c = (generate_key env usage true s).1.config in (c ≡ s.config) ⊎ NewSecret usage s c
  generate_key-config_of usage s (ok bytes) known eq =
      inr
        (bytes, eq, generate_key-same usage s known ∙ create_key-with_secret usage s bytes known eq)
  generate_key-config_of usage s (err e) known eq =
      inl (generate_key-same usage s known ∙ (create_key-same usage s e known eq).0)

  -- However `GenerateKey` for a binding or signing key ends, the configuration is the old one, or
  -- differs in that usage's secret alone, which is the hexadecimal form of 20 random bytes.
  pub generate_key-config :
      (usage : KeyUsage) (s : State)
      → is_unknown usage ≡ false
      → let c = (generate_key env usage true s).1.config in (c ≡ s.config) ⊎ NewSecret usage s c
  generate_key-config usage s known = generate_key-config_of usage s _ known refl

  generate_key-NewSecret_of :
      (usage : KeyUsage) (s : State) (key : Option CertifiedKey) (r : Result Bytes)
      → is_unknown usage ≡ false
      → env.answer (get_random_bytes 20) s.trace ≡ r
      → (create_key env usage s).0 ≡ returned (key, none)
      → NewSecret usage s (generate_key env usage true s).1.config
  generate_key-NewSecret_of usage s key (ok bytes) known eq h =
      (bytes, eq, generate_key-same usage s known ∙ create_key-with_secret usage s bytes known eq)
  generate_key-NewSecret_of usage s key (err e) known eq h =
      absurd ((create_key-same usage s e known eq).1 key h)

  -- Where the key was created in the TPM and the configuration saved, `GenerateKey` leaves the new
  -- secret in the configuration, also where it cannot write the key's file and returns an error.
  pub generate_key-NewSecret :
      (usage : KeyUsage) (s : State) (key : Option CertifiedKey)
      → is_unknown usage ≡ false
      → (create_key env usage s).0 ≡ returned (key, none)
      → NewSecret usage s (generate_key env usage true s).1.config
  generate_key-NewSecret usage s key known h = generate_key-NewSecret_of usage s key _ known refl h
