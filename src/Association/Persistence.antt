-- ===== src/Association/Persistence.antt =====
-- The association file: what a successful save writes, and that a restarted daemon reads it back.
use workload_agent.Prelude.{
  ◌≡◌, ◌≢◌, refl, false, none, some, String, List, [], ◌∷◌, arith, ap, ◌∙◌,
}
use workload_agent.Prelude.Assoc.{lookup}
use workload_agent.Types.{Result, Bytes, ok, err, ImageVmAssociations}
use workload_agent.Association.{
  image_vm_association_file_path as path, load_image_vm_association, save_image_vm_association,
}
use workload_agent.World.{
  Env, State, Call, map_mtx, lock, unlock, rlock, runlock, stat, open_file, read_all, write_file,
  yaml_marshal, yaml_unmarshal,
}
use workload_agent.World.Go.{◌>>=◌, discard, returned}

-- The calls of a save up to the write.
abbrev before_write : State → List Call
before_write s = lock map_mtx ∷ stat path ∷ yaml_marshal s.associations ∷ s.trace

abbrev after_write : Bytes → State → List Call
after_write text s = unlock map_mtx ∷ write_file path text 0o600 ∷ before_write s

-- The calls of a load up to the read.
abbrev before_read : List Call → List Call
before_read t = runlock map_mtx ∷ open_file path false 0o600 ∷ rlock map_mtx ∷ t

-- What a save without an error has done: it wrote the marshalled map, as its last call but the
-- unlock.
pub record Written (env : Env) (s t : State) : Type 0 where
  pub text : Bytes
  pub marshalled : env.answer (yaml_marshal s.associations) s.trace ≡ ok text
  pub calls : t.trace ≡ after_write text s
  pub wrote : env.answer (write_file path text 0o600) (before_write s) ≡ none

-- `errors.Wrap` makes no nil error of an error.
abbrev pub WrapsErrors : Env → Type 0
WrapsErrors env = (e m : String) → env.wrap (some e) m ≢ none

module _ (env : Env) where
  save-Written_of :
      (s : State) (r : Result Bytes)
      → env.answer (yaml_marshal s.associations) s.trace ≡ r
      → WrapsErrors env
      → (save_image_vm_association env s).0 ≡ returned none
      → Written env s (save_image_vm_association env s).1
  unfolding save_image_vm_association ◌>>=◌ discard
  save-Written_of s (ok text) e wraps h = record {
    text = text;
    marshalled = e;
    calls = ground arith;
    wrote = grind arith;
  }
  save-Written_of s (err x) e wraps h = ground arith

-- A daemon that starts: its package variables are new.
abbrev pub restart : State → State
restart s = record s { associations = []; image_key_id = []; handlers = [] }

-- What the file system and the YAML package do: a file that was written without an error is read
-- back as it was written, and a marshalled map is unmarshalled to the same entries.
pub record KeepsFiles (env : Env) : Type 0 where
  pub read_back :
      (text : Bytes) (t : List Call)
      → env.answer (write_file path text 0o600) t ≡ none
      → env.answer (read_all path) (before_read (unlock map_mtx ∷ write_file path text 0o600 ∷ t))
        ≡ ok text
  pub unmarshal_entries :
      (m : ImageVmAssociations) (text : Bytes) (t u : List Call) (k : String)
      → env.answer (yaml_marshal m) t ≡ ok text
      → lookup k (env.answer (yaml_unmarshal text []) u).0 ≡ lookup k m
  pub unmarshal_error :
      (m : ImageVmAssociations) (text : Bytes) (t u : List Call)
      → env.answer (yaml_marshal m) t ≡ ok text
      → (env.answer (yaml_unmarshal text []) u).1 ≡ none

abbrev after_read : List Call → List Call
after_read t = read_all path ∷ before_read t

-- A load whose calls succeed leaves what the file's text unmarshals to.
load-unmarshalled :
    (env : Env) (s : State) (text : Bytes)
    → env.answer (open_file path false 0o600) (rlock map_mtx ∷ s.trace) ≡ none
    → env.answer (read_all path) (before_read s.trace) ≡ ok text
    → (env.answer (yaml_unmarshal text s.associations) (after_read s.trace)).1 ≡ none
    → ((load_image_vm_association env s).0 ≡ returned none)
      × ((load_image_vm_association env s).1.associations
          ≡ (env.answer (yaml_unmarshal text s.associations) (after_read s.trace)).0)
unfolding load_image_vm_association ◌>>=◌ discard
load-unmarshalled env s text opens reads unmarshals = ground arith

module _ (env : Env) (files : KeepsFiles env) where
  load-Written :
      (s t : State)
      → Written env s t
      → env.answer (open_file path false 0o600) (rlock map_mtx ∷ t.trace) ≡ none
      → ((load_image_vm_association env (restart t)).0 ≡ returned none)
        × ((k : String)
            → lookup k (load_image_vm_association env (restart t)).1.associations
              ≡ lookup k s.associations)
  load-Written s t w opens =
      let reads : env.answer (read_all path) (before_read t.trace) ≡ ok w.text =
        rw w.calls (files.read_back w.text (before_write s) w.wrote) in
      let (ends, loaded) =
        load-unmarshalled env (restart t) w.text opens reads
          (files.unmarshal_error s.associations w.text s.trace (after_read t.trace) w.marshalled) in
      (
        ends,
        λ k.
            ap (lookup k) loaded
            ∙ files.unmarshal_entries s.associations w.text s.trace (after_read t.trace) k
                w.marshalled,
      )

  -- After a save that returns no error, a daemon that starts anew and can open the file loads it
  -- without an error, and then has for every image the entry that was saved.
  pub save-load :
      (s : State)
      → WrapsErrors env
      → (save_image_vm_association env s).0 ≡ returned none
      → let t = (save_image_vm_association env s).1 in
        env.answer (open_file path false 0o600) (rlock map_mtx ∷ t.trace) ≡ none
        → ((load_image_vm_association env (restart t)).0 ≡ returned none)
          × ((k : String)
              → lookup k (load_image_vm_association env (restart t)).1.associations
                ≡ lookup k s.associations)
  save-load s wraps saved = load-Written s _ (save-Written_of env s _ refl wraps saved)
