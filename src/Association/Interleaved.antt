-- ===== src/Association/Interleaved.antt =====
-- The map and its file under concurrent RPC calls (wlavm/image_VM_association.go, util/util.go): each
-- thread changes the map under the mutex, then saves it, or loads the file into the map. The save
-- marshals the map before it takes the mutex, and the load has no mutex when it writes the map. Maps
-- stand for their texts in the file.
pub mod Exclusion
pub mod Order
pub mod Saves
pub mod File
use workload_agent.Prelude.{
  ℕ, String, ◌==◌, ◌≡◌, Bool, Option, none, some, List, [], ◌∷◌, if◌then◌else◌,
}
use workload_agent.Prelude.Assoc.{lookup, insert, erase}
use workload_agent.Association.{associate, dissociate, in_use}
use workload_agent.Association.Ledger.{Act, starts, stops, forgets}
use workload_agent.Types.{ImageVmAssociation, ImageVmAssociations}

-- The image that an operation is about.
abbrev pub subject : Act → String
subject (starts uuid path) = uuid
subject (stops uuid) = uuid
subject (forgets uuid) = uuid

-- What `Create`, `Delete` and `DeleteEntry` make of the map, from the image's entry as they have
-- read it.
abbrev pub changed_from :
    Act → Option ImageVmAssociation → ImageVmAssociations → ImageVmAssociations
changed_from (starts uuid path) entry m = insert uuid (associate path entry) m
changed_from (stops uuid) entry m = if in_use entry then insert uuid (dissociate entry) m else m
changed_from (forgets uuid) entry m = erase uuid m

-- The same, where they read the entry of that map.
abbrev pub changed : Act → ImageVmAssociations → ImageVmAssociations
changed a m = changed_from a (lookup (subject a) m) m

-- What the file holds: a map, or the nothing that opening it for a write leaves, or a part of a text;
-- or a text that two writers have mixed.
pub data Text : Type 0 where
  intact : ImageVmAssociations → Text
  torn : Text
  mixed : Text

-- Writing a map to the file that was truncated for it.
abbrev pub filled : ImageVmAssociations → Text → Text
filled m torn = intact m
filled m (intact n) = mixed
filled m mixed = mixed

-- Where a thread stands: before its change, in it with the mutex before and after it has read the
-- entry, behind it, with a marshalled map, writing that map with the mutex before and after it has
-- truncated the file, before and after it has opened the file to load it, or at its end.
pub data Place : Type 0 where
  idle inside : Act → Place
  changing : Act → Option ImageVmAssociation → Place
  unsaved : Place
  marshalled writing filling : ImageVmAssociations → Place
  loading unmarshalling : Place
  ended : Place

-- `Delete` of an image with no VM saves nothing.
abbrev pub after : Act → Option ImageVmAssociation → Place
after (stops uuid) entry = if in_use entry then unsaved else ended
after a entry = unsaved

pub record Daemon : Type 0 where
  pub map : ImageVmAssociations
  pub file : Text
  -- the thread that holds the mutex
  pub holder : Option ℕ
  pub place : ℕ → Place

abbrev pub move : ℕ → Place → (ℕ → Place) → ℕ → Place
move i p place k = if i == k then p else place k

-- A step of the thread `i`, and the change that it makes.
pub data Step (s : Daemon) : Option Act → Daemon → Type 0 where
  enter :
      (i : ℕ) (a : Act)
      → s.place i ≡ idle a
      → s.holder ≡ none
      → Step s none (record s { holder = some i; place = move i (inside a) s.place })
  read_entry :
      (i : ℕ) (a : Act)
      → s.place i ≡ inside a
      → Step s none (record s { place = move i (changing a (lookup (subject a) s.map)) s.place })
  change :
      (i : ℕ) (a : Act) (entry : Option ImageVmAssociation)
      → s.place i ≡ changing a entry
      → Step s (some a) (record s {
        map = changed_from a entry s.map;
        holder = none;
        place = move i (after a entry) s.place;
      })
  marshal :
      (i : ℕ)
      → s.place i ≡ unsaved
      → Step s none (record s { place = move i (marshalled s.map) s.place })
  lock_file :
      (i : ℕ) (m : ImageVmAssociations)
      → s.place i ≡ marshalled m
      → s.holder ≡ none
      → Step s none (record s { holder = some i; place = move i (writing m) s.place })
  -- `ioutil.WriteFile` opens the file, which truncates it, and writes it.
  truncate :
      (i : ℕ) (m : ImageVmAssociations)
      → s.place i ≡ writing m
      → Step s none (record s { file = torn; place = move i (filling m) s.place })
  fill :
      (i : ℕ) (m : ImageVmAssociations)
      → s.place i ≡ filling m
      → Step s none
          (record s { file = filled m s.file; holder = none; place = move i ended s.place })
  -- the map cannot be marshalled, or the file has wrong permission bits
  give_up : (i : ℕ) → s.place i ≡ unsaved → Step s none (record s { place = move i ended s.place })
  refuse :
      (i : ℕ) (m : ImageVmAssociations)
      → s.place i ≡ marshalled m
      → Step s none (record s { place = move i ended s.place })
  -- the file cannot be opened, or not be written to its end
  deny :
      (i : ℕ) (m : ImageVmAssociations)
      → s.place i ≡ writing m
      → Step s none (record s { holder = none; place = move i ended s.place })
  fail :
      (i : ℕ) (m : ImageVmAssociations)
      → s.place i ≡ filling m
      → Step s none (record s { holder = none; place = move i ended s.place })
  -- The load opens the file under a read lock, which it gives back.
  open_text :
      (i : ℕ)
      → s.place i ≡ loading
      → s.holder ≡ none
      → Step s none (record s { place = move i unmarshalling s.place })
  -- It writes the map, with no mutex, in any number of steps; what the decoder makes of it is left
  -- open.
  unmarshal :
      (i : ℕ) (m : ImageVmAssociations)
      → s.place i ≡ unmarshalling
      → Step s none (record s { map = m })
  finish_load :
      (i : ℕ) → s.place i ≡ unmarshalling → Step s none (record s { place = move i ended s.place })

abbrev pub noted : Option Act → List Act → List Act
noted none acts = acts
noted (some a) acts = a ∷ acts

-- Steps of any threads in any order, with the changes made, the latest first.
pub data Run (s : Daemon) : List Act → Daemon → Type 0 where
  start : Run s [] s
  later :
      {acts : List Act} {o : Option Act} {t u : Daemon}
      → Run s acts t
      → Step t o u
      → Run s (noted o acts) u
