-- ===== src/Association/Interleaved/Order.antt =====
-- What concurrent RPC calls leave in the map and in its file (wlavm/image_VM_association.go,
-- util/util.go).
use mathlib.Core.Path.{subst}
use workload_agent.Prelude.{
  ℕ, ◌≡◌, ◌≢◌, ◌==◌, Bool-cases, inl, inr, arith, refl, sym, ap, ◌∙◌, Option, List, [], ◌∷◌,
}
use workload_agent.Prelude.Assoc.{lookup}
use workload_agent.Association.Interleaved.Exclusion.{
  Holds, IsExclusive, place-Holds, Step-IsExclusive,
}
use workload_agent.Association.Entries.{
  create-associations, delete-associations, delete_entry-associations,
}
use workload_agent.Association.Interleaved.{
  subject, changed_from, changed, Place, idle, inside, changing, unsaved, marshalled, writing,
  filling, loading, unmarshalling, ended, after, Daemon, move, Step, enter, read_entry, change,
  marshal, lock_file, truncate, fill, give_up, refuse, deny, fail, open_text, unmarshal,
  finish_load, noted, Run, start, later,
}
use workload_agent.Association.Ledger.{Act, starts, stops, forgets, perform}
use workload_agent.Types.{ImageVmAssociation, ImageVmAssociations}
use workload_agent.World.{Env, State}

-- The map after changes, the latest first.
abbrev pub changes : List Act → ImageVmAssociations → ImageVmAssociations
changes [] m = m
changes (a ∷ acts) m = changed a (changes acts m)

-- The operations one after the other, the latest first.
abbrev pub performs : Env → List Act → State → State
performs env [] s = s
performs env (a ∷ acts) s = perform env a (performs env acts s)

-- A thread that is about to change the map has the entry that is in the map, and no thread loads the
-- file.
abbrev pub Sound : ImageVmAssociations → Place → Type 0
Sound m (changing a entry) = entry ≡ lookup (subject a) m
Sound m loading = ⊥
Sound m unmarshalling = ⊥
Sound m _ = Unit

-- A thread that is at the start of `Create`, `Delete` or `DeleteEntry`, or at its end.
abbrev pub IsInitial : Place → Type 0
IsInitial (idle a) = Unit
IsInitial ended = Unit
IsInitial _ = ⊥

IsInitial-Holds : (p : Place) → IsInitial p → Holds p → ⊥
IsInitial-Holds (idle a) h k = k
IsInitial-Holds ended h k = k
IsInitial-Holds (inside a) h k = h
IsInitial-Holds (changing a entry) h k = h
IsInitial-Holds unsaved h k = h
IsInitial-Holds (marshalled m) h k = h
IsInitial-Holds (writing m) h k = h
IsInitial-Holds (filling m) h k = h
IsInitial-Holds loading h k = h
IsInitial-Holds unmarshalling h k = h

IsInitial-Sound : (m : ImageVmAssociations) (p : Place) → IsInitial p → Sound m p
IsInitial-Sound m (idle a) h = tt
IsInitial-Sound m ended h = tt
IsInitial-Sound m (inside a) h = absurd h
IsInitial-Sound m (changing a entry) h = absurd h
IsInitial-Sound m unsaved h = absurd h
IsInitial-Sound m (marshalled n) h = absurd h
IsInitial-Sound m (writing n) h = absurd h
IsInitial-Sound m (filling n) h = absurd h
IsInitial-Sound m loading h = absurd h
IsInitial-Sound m unmarshalling h = absurd h

-- A thread without the mutex does not depend on the map.
Sound-other : (m n : ImageVmAssociations) (p : Place) → (Holds p → ⊥) → Sound m p → Sound n p
Sound-other m n (changing a entry) free h = absurd (free tt)
Sound-other m n (idle a) free h = tt
Sound-other m n (inside a) free h = tt
Sound-other m n unsaved free h = tt
Sound-other m n (marshalled old) free h = tt
Sound-other m n (writing old) free h = tt
Sound-other m n (filling old) free h = tt
Sound-other m n loading free h = h
Sound-other m n unmarshalling free h = h
Sound-other m n ended free h = tt

Sound-after :
    (m : ImageVmAssociations) (a : Act) (e : Option ImageVmAssociation) → Sound m (after a e)
Sound-after m (starts uuid path) e = tt
Sound-after m (stops uuid) e = ground arith
Sound-after m (forgets uuid) e = tt

-- A property of every place, where one thread moves.
pub moved_all :
    (Q : Place → Type 0) (i : ℕ) (p : Place) (place : ℕ → Place)
    → Q p
    → ((k : ℕ) → i ≢ k → Q (place k))
    → (k : ℕ) → Q (move i p place k)
moved_all Q i p place h all k = elim (Bool-cases (i == k)) [
  | inl e ↦ rw e h
  | inr d ↦ rw d (all k (ground arith))
]

-- The map is that of the changes one after the other.
pub record Ordered (m : ImageVmAssociations) (acts : List Act) (t : Daemon) : Type 0 where
  pub map_is : t.map ≡ changes acts m
  pub exclusive : IsExclusive t
  pub sound : (k : ℕ) → Sound t.map (t.place k)

module _ (m : ImageVmAssociations) (acts : List Act) {t : Daemon} (c : Ordered m acts t) where
  -- Beside a thread with the mutex there is none.
  pub alone : (i k : ℕ) → Holds (t.place i) → i ≢ k → Holds (t.place k) → ⊥
  alone i k held other h = let e = c.exclusive i held in let f = c.exclusive k h in other cc

  -- The thread `i` goes to another place, and the map stays.
  goes : (i : ℕ) (p : Place) → Sound t.map p → (k : ℕ) → Sound t.map (move i p t.place k)
  goes i p h = moved_all (Sound t.map) i p t.place h λ k other. c.sound k

  Step-Sound : {u : Daemon} (o : Option Act) → Step t o u → (k : ℕ) → Sound u.map (u.place k)
  Step-Sound o (enter i a at free) = goes i (inside a) tt
  Step-Sound o (read_entry i a at) = goes i (changing a (lookup (subject a) t.map)) refl
  Step-Sound o (change i a entry at) =
      moved_all (Sound (changed_from a entry t.map)) i (after a entry) t.place
        (Sound-after (changed_from a entry t.map) a entry)
        λ k other.
          Sound-other t.map (changed_from a entry t.map) (t.place k)
            (alone i k (place-Holds t c.exclusive i (changing a entry) at tt) other) (c.sound k)
  Step-Sound o (marshal i at) = goes i (marshalled t.map) tt
  Step-Sound o (lock_file i old at free) = goes i (writing old) tt
  Step-Sound o (truncate i old at) = goes i (filling old) tt
  Step-Sound o (fill i old at) = goes i ended tt
  Step-Sound o (give_up i at) = goes i ended tt
  Step-Sound o (refuse i old at) = goes i ended tt
  Step-Sound o (deny i old at) = goes i ended tt
  Step-Sound o (fail i old at) = goes i ended tt
  Step-Sound o (open_text i at free) = absurd (subst (Sound t.map) at (c.sound i))
  Step-Sound o (unmarshal i old at) = absurd (subst (Sound t.map) at (c.sound i))
  Step-Sound o (finish_load i at) = goes i ended tt

  Step-map : {u : Daemon} (o : Option Act) → Step t o u → u.map ≡ changes (noted o acts) m
  Step-map o (enter i a at free) = c.map_is
  Step-map o (read_entry i a at) = c.map_is
  Step-map o (change i a entry at) =
      ap (λ e. changed_from a e t.map) (subst (Sound t.map) at (c.sound i))
      ∙ ap (changed a) c.map_is
  Step-map o (marshal i at) = c.map_is
  Step-map o (lock_file i old at free) = c.map_is
  Step-map o (truncate i old at) = c.map_is
  Step-map o (fill i old at) = c.map_is
  Step-map o (give_up i at) = c.map_is
  Step-map o (refuse i old at) = c.map_is
  Step-map o (deny i old at) = c.map_is
  Step-map o (fail i old at) = c.map_is
  Step-map o (open_text i at free) = c.map_is
  Step-map o (unmarshal i old at) = absurd (subst (Sound t.map) at (c.sound i))
  Step-map o (finish_load i at) = c.map_is

  pub Step-Ordered : {u : Daemon} (o : Option Act) → Step t o u → Ordered m (noted o acts) u
  Step-Ordered o step = record {
    map_is = Step-map o step;
    exclusive = Step-IsExclusive t c.exclusive o step;
    sound = Step-Sound o step;
  }

pub start-Ordered : (s : Daemon) → ((k : ℕ) → IsInitial (s.place k)) → Ordered s.map [] s
start-Ordered s fresh = record {
  map_is = refl;
  exclusive = λ k h. absurd (IsInitial-Holds (s.place k) (fresh k) h);
  sound = λ k. IsInitial-Sound s.map (s.place k) (fresh k);
}

Run-Ordered :
    {s t : Daemon} {acts : List Act}
    → ((k : ℕ) → IsInitial (s.place k))
    → Run s acts t
    → Ordered s.map acts t
Run-Ordered {s} fresh start = start-Ordered s fresh
Run-Ordered {s} fresh (later {acts} {o} run step) =
    Step-Ordered s.map acts (Run-Ordered fresh run) o step

performs-changes :
    (env : Env) (acts : List Act) (s : State)
    → (performs env acts s).associations ≡ changes acts s.associations
performs-changes env [] s = refl
performs-changes env (starts uuid path ∷ acts) s =
    rw (create-associations, performs-changes env acts s) refl
performs-changes env (stops uuid ∷ acts) s =
    rw (delete-associations, performs-changes env acts s) refl
performs-changes env (forgets uuid ∷ acts) s =
    rw (delete_entry-associations, performs-changes env acts s) refl

-- In any interleaving of any threads that call `Create`, `Delete` or `DeleteEntry`, none of which has
-- begun at the start and none of which loads the file, the map is the one that the same operations
-- leave that run one after the other, in the order in which they write the map, whatever becomes of
-- their saves.
pub Run-performs :
    (env : Env) (state : State) (s t : Daemon) (acts : List Act)
    → state.associations ≡ s.map
    → ((k : ℕ) → IsInitial (s.place k))
    → Run s acts t
    → t.map ≡ (performs env acts state).associations
Run-performs env state s t acts same fresh run =
    (Run-Ordered fresh run).map_is ∙ sym (performs-changes env acts state ∙ ap (changes acts) same)
