-- ===== src/Association/Interleaved/Saves.antt =====
-- What the threads and the file have of the maps that were there (util/util.go).
use workload_agent.Prelude.{◌≡◌, ◌⊎◌, inl, inr, Option, none, some, List, [], ◌∷◌, arith}
use workload_agent.Association.Interleaved.{
  Text, intact, torn, mixed, Place, idle, inside, changing, unsaved, marshalled, writing, filling,
  loading, unmarshalling, ended, after, noted,
}
use workload_agent.Association.Interleaved.Exclusion.{Holds}
use workload_agent.Association.Interleaved.Order.{changes, IsInitial}
use workload_agent.Association.Ledger.{Act, starts, stops, forgets}
use workload_agent.Types.{ImageVmAssociation, ImageVmAssociations}

-- A map that was there before the first of the changes or behind one of them.
abbrev pub Past : List Act → ImageVmAssociations → ImageVmAssociations → Type 0
Past [] m old = old ≡ m
Past (a ∷ acts) m old = (old ≡ changes (a ∷ acts) m) ⊎ Past acts m old

pub Past-now :
    (acts : List Act) (m old : ImageVmAssociations) → old ≡ changes acts m → Past acts m old
Past-now [] m old e = e
Past-now (a ∷ acts) m old e = inl e

pub Past-noted :
    (o : Option Act) (acts : List Act) (m old : ImageVmAssociations)
    → Past acts m old
    → Past (noted o acts) m old
Past-noted none acts m old h = h
Past-noted (some a) acts m old h = inr h

-- What a thread has marshalled was the map once, and while it writes the file, that is torn.
abbrev pub Saves : List Act → ImageVmAssociations → Text → Place → Type 0
Saves acts m file (marshalled old) = Past acts m old
Saves acts m file (writing old) = Past acts m old
Saves acts m file (filling old) = Past acts m old × (file ≡ torn)
Saves acts m file _ = Unit

pub Saves-IsInitial :
    (m : ImageVmAssociations) (file : Text) (p : Place) → IsInitial p → Saves [] m file p
Saves-IsInitial m file (idle a) h = tt
Saves-IsInitial m file ended h = tt
Saves-IsInitial m file (inside a) h = absurd h
Saves-IsInitial m file (changing a entry) h = absurd h
Saves-IsInitial m file unsaved h = absurd h
Saves-IsInitial m file (marshalled n) h = absurd h
Saves-IsInitial m file (writing n) h = absurd h
Saves-IsInitial m file (filling n) h = absurd h
Saves-IsInitial m file loading h = absurd h
Saves-IsInitial m file unmarshalling h = absurd h

pub Saves-noted :
    (o : Option Act) (acts : List Act) (m : ImageVmAssociations) (file : Text) (p : Place)
    → Saves acts m file p
    → Saves (noted o acts) m file p
Saves-noted o acts m file (marshalled old) h = Past-noted o acts m old h
Saves-noted o acts m file (writing old) h = Past-noted o acts m old h
Saves-noted o acts m file (filling old) h = (Past-noted o acts m old h.0, h.1)
Saves-noted o acts m file (idle a) h = tt
Saves-noted o acts m file (inside a) h = tt
Saves-noted o acts m file (changing a entry) h = tt
Saves-noted o acts m file unsaved h = tt
Saves-noted o acts m file loading h = tt
Saves-noted o acts m file unmarshalling h = tt
Saves-noted o acts m file ended h = tt

-- A thread without the mutex does not depend on the file.
pub Saves-other :
    (acts : List Act) (m : ImageVmAssociations) (file new : Text) (p : Place)
    → (Holds p → ⊥)
    → Saves acts m file p
    → Saves acts m new p
Saves-other acts m file new (filling old) free h = absurd (free tt)
Saves-other acts m file new (marshalled old) free h = h
Saves-other acts m file new (writing old) free h = h
Saves-other acts m file new (idle a) free h = tt
Saves-other acts m file new (inside a) free h = tt
Saves-other acts m file new (changing a entry) free h = tt
Saves-other acts m file new unsaved free h = tt
Saves-other acts m file new loading free h = tt
Saves-other acts m file new unmarshalling free h = tt
Saves-other acts m file new ended free h = tt

pub Saves-after :
    (acts : List Act) (m : ImageVmAssociations) (file : Text) (a : Act)
    (e : Option ImageVmAssociation)
    → Saves acts m file (after a e)
Saves-after acts m file (starts uuid path) e = tt
Saves-after acts m file (stops uuid) e = ground arith
Saves-after acts m file (forgets uuid) e = tt

-- The file holds one map whole, which was the daemon's once.
abbrev pub HoldsPast : List Act → ImageVmAssociations → Text → Type 0
HoldsPast acts m (intact n) = Past acts m n
HoldsPast acts m torn = ⊥
HoldsPast acts m mixed = ⊥

-- The file is as at first, or torn, or holds a map that was there once.
abbrev pub IsClean : List Act → ImageVmAssociations → Text → Text → Type 0
IsClean acts m old file = (file ≡ old) ⊎ (file ≡ torn) ⊎ HoldsPast acts m file

pub HoldsPast-noted :
    (o : Option Act) (acts : List Act) (m : ImageVmAssociations) (file : Text)
    → HoldsPast acts m file
    → HoldsPast (noted o acts) m file
HoldsPast-noted o acts m (intact n) h = Past-noted o acts m n h
HoldsPast-noted o acts m torn h = h
HoldsPast-noted o acts m mixed h = h

pub IsClean-noted :
    (o : Option Act) (acts : List Act) (m : ImageVmAssociations) (old file : Text)
    → IsClean acts m old file
    → IsClean (noted o acts) m old file
IsClean-noted o acts m old file (inl e) = inl e
IsClean-noted o acts m old file (inr (inl e)) = inr (inl e)
IsClean-noted o acts m old file (inr (inr h)) = inr (inr (HoldsPast-noted o acts m file h))
