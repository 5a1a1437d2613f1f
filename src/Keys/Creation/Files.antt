-- ===== src/Keys/Creation/Files.antt =====
-- A key that was created is there for `ValidateKey` (common/key_creation.go).
use workload_agent.Prelude.{
  String, ◌≡◌, ◌⊎◌, refl, false, true, Option, none, some, List, ◌∷◌, [], arith,
}
use workload_agent.Association.Persistence.{WrapsErrors}
use workload_agent.Keys.Creation.{
  is_unknown, create_key, write_key, write_certified_key_to_disk, written_after, generate_key,
  validate_key,
}
use workload_agent.Keys.Creation.Secrets.{key_path, validate_key-found}
use workload_agent.Types.{Err, CertifiedKey, FileInfo, KeyUsage, found}
use workload_agent.World.{Env, State, Call, open_file, remove, remove_all, stat}
use workload_agent.World.Go.{
  Outcome, returned, resume, continue, settle, ◌>>=◌, ◌>>◌, return, nil_or, discard,
}

module _ (env : Env) where
  -- The file was opened for creation without an error, and nothing was removed since.
  abbrev pub IsCreated : String → List Call → Type 0
  IsCreated path [] = ⊥
  IsCreated path (open_file p truncates mode ∷ t) =
      ((p ≡ path) × (env.answer (open_file p truncates mode) t ≡ none)) ⊎ IsCreated path t
  IsCreated path (remove p ∷ t) = ⊥
  IsCreated path (remove_all p ∷ t) = ⊥
  IsCreated path (c ∷ t) = IsCreated path t

  -- `os.Stat` finds a file that was created.
  abbrev pub FindsFiles : Type 0
  FindsFiles =
      (path : String) (t : List Call)
      → IsCreated path t
      → (info : FileInfo) × (env.answer (stat path) t ≡ found info)

  module _ (wraps : WrapsErrors env) where
    write-IsCreated :
        (key : Option CertifiedKey) (path : String) (s : State)
        → (write_certified_key_to_disk env key path s).0 ≡ returned none
        → IsCreated path (write_certified_key_to_disk env key path s).1.trace
    unfolding write_certified_key_to_disk write_key ◌>>=◌ discard
    write-IsCreated none path s h = cc
    write-IsCreated (some key) path s h = grind (arith, wraps)

    -- The end of `GenerateKey`, behind the write of the file.
    checked-IsCreated :
        (path m : String) (r : Outcome Err × State)
        → (r.0 ≡ returned none → IsCreated path r.1.trace)
        → (settle (continue (resume r) λ w. nil_or w (λ e. env.wrap (some e) m) >> return none)).0
          ≡ returned none
        → IsCreated path
            (settle
              (continue (resume r) λ w. nil_or w (λ e. env.wrap (some e) m) >> return none)).1.trace
    unfolding ◌>>=◌
    checked-IsCreated path m (returned none, s) made h = made refl
    checked-IsCreated path m (returned (some e), s) made h = grind (arith, wraps)
    checked-IsCreated path m (Outcome.panicked, s) made h = cc
    checked-IsCreated path m (Outcome.exited n, s) made h = cc

    written-IsCreated :
        (usage : KeyUsage) (r : Outcome (Option CertifiedKey × Err) × State)
        → (settle (continue (resume r) (written_after env usage))).0 ≡ returned none
        → IsCreated
            (key_path usage)
            (settle (continue (resume r) (written_after env usage))).1.trace
    unfolding written_after ◌>>=◌
    written-IsCreated usage (returned (key, none), s) h =
        checked-IsCreated (key_path usage) _
          (write_certified_key_to_disk env key (key_path usage) s)
          (write-IsCreated key (key_path usage) s) h
    written-IsCreated usage (returned (key, some e), s) h = grind (arith, wraps)
    written-IsCreated usage (Outcome.panicked, s) h = cc
    written-IsCreated usage (Outcome.exited n, s) h = cc

    generate_key-IsCreated :
        (usage : KeyUsage) (s : State)
        → is_unknown usage ≡ false
        → (generate_key env usage true s).0 ≡ returned none
        → IsCreated (key_path usage) (generate_key env usage true s).1.trace
    unfolding generate_key written_after ◌>>=◌
    generate_key-IsCreated usage s known h =
        rw known (written-IsCreated usage (create_key env usage s) (rw known at h))

  -- Where wrapping an error gives an error and `os.Stat` finds a file that was created and not removed
  -- since, `ValidateKey` accepts the key of the usage directly after a `GenerateKey` that returned no
  -- error.
  pub generate_key-validate_key :
      (usage : KeyUsage) (s : State)
      → WrapsErrors env
      → FindsFiles
      → is_unknown usage ≡ false
      → (generate_key env usage true s).0 ≡ returned none
      → (validate_key env usage (generate_key env usage true s).1).0 ≡ returned none
  generate_key-validate_key usage s wraps finds known h =
      let t = (generate_key env usage true s).1 in
      let (info, e) =
        finds (key_path usage) t.trace (generate_key-IsCreated wraps usage s known h) in
      (validate_key-found env usage t wraps).0 info e
