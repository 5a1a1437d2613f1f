-- ===== src/Association/Ledger.antt =====
-- An abstract ledger of images: the path each was first started with, and how many of its VMs run.
-- The association map refines it.
use mathlib.Core.Path.{subst₂}
use workload_agent.Prelude.{
  ℕ, suc, ◌+◌, ◌-◌, ◌≤◌, ◌<◌, ◌≡◌, ◌&&◌, refl, Bool, true, false, Option, none, some, String, List,
  [], ◌∷◌, length, ltb, str_eq, arith, ap, ◌∙◌, eq_iff, if◌then◌else◌,
}
use workload_agent.Prelude.Assoc.{lookup, insert, lookup-insert, lookup-erase}
use workload_agent.Prelude.Int.{pos, max_int, increment, decrement}
use workload_agent.Types.{ImageVmAssociation, ImageVmAssociations}
use workload_agent.Association.{
  Association, create, delete, delete_entry, associate, dissociate, in_use,
}
use workload_agent.Association.Entries.{
  create-associations, delete-associations, delete_entry-associations, delete-answer, Answers,
  last_vm, last_path,
}
use workload_agent.World.{Env, State}

pub record Image : Type 0 where
  pub path : String
  pub running : ℕ

abbrev pub Ledger : Type 0
Ledger = String → Option Image

-- What the agent does with an image.
pub data Act : Type 0 where
  starts : String → String → Act
  stops : String → Act
  forgets : String → Act

abbrev started : String → Option Image → Image
started path none = record { path = path; running = 1 }
started path (some i) = record i { running = i.running + 1 }

abbrev stopped : Option Image → Option Image
stopped none = none
stopped (some i) = some (record i { running = i.running - 1 })

abbrev pub act : Act → Ledger → Ledger
act (starts uuid path) ledger k =
    if str_eq uuid k then some (started path (ledger uuid)) else ledger k
act (stops uuid) ledger k = if str_eq uuid k then stopped (ledger uuid) else ledger k
act (forgets uuid) ledger k = if str_eq uuid k then none else ledger k

abbrev pub acts : List Act → Ledger → Ledger
acts [] ledger = ledger
acts (a ∷ later) ledger = acts later (act a ledger)

abbrev pub entry : Option Image → Option ImageVmAssociation
entry none = none
entry (some i) = some (record { image_path = i.path; vm_count = pos i.running })

-- The map holds what the ledger says, and counts nothing else.
abbrev pub Represents : ImageVmAssociations → Ledger → Type 0
Represents m ledger = (k : String) → lookup k m ≡ entry (ledger k)

abbrev pub running_of : Option Image → ℕ
running_of none = 0
running_of (some i) = i.running

abbrev pub path_of : Option Image → String
path_of none = ""
path_of (some i) = i.path

-- There is room for `n` more starts of any image.
abbrev pub HasRoom : ℕ → Ledger → Type 0
HasRoom n ledger = (k : String) → running_of (ledger k) + n ≤ max_int

associate-entry :
    (path : String) (o : Option Image)
    → running_of o < max_int
    → associate path (entry o)
      ≡ record { image_path = (started path o).path; vm_count = pos (started path o).running }
unfolding increment
associate-entry path none h = refl
associate-entry path (some i) h = ground arith

lookup-if_insert :
    (b : Bool) (k j : String) (v : ImageVmAssociation) (m : ImageVmAssociations)
    → lookup j (if b then insert k v m else m) ≡ (if b && str_eq k j then some v else lookup j m)
lookup-if_insert true k j v m = lookup-insert k j v m
lookup-if_insert false k j v m = refl

stopped-entry :
    (k uuid : String) (ledger : Ledger) (m : ImageVmAssociations)
    → Represents m ledger
    → (if in_use (entry (ledger uuid)) && str_eq uuid k
        then some (dissociate (entry (ledger uuid)))
        else lookup k m)
      ≡ entry (act (stops uuid) ledger k)
unfolding decrement
stopped-entry k uuid ledger m h = ground (arith, h k, h uuid, eq_iff uuid k)

stopped_answer :
    (o : Option Image)
    → (last_vm (entry o) ≡ ltb (running_of o) 2)
      × (last_path (entry o) ≡ (if ltb 0 (running_of o) then path_of o else ""))
unfolding decrement
stopped_answer o = ground arith

module _ (env : Env) where
  abbrev pub perform : Act → State → State
  perform (starts uuid path) s = (create env (record { image_uuid = uuid; image_path = path }) s).1
  perform (stops uuid) s = (delete env (record { image_uuid = uuid; image_path = "" }) s).1
  perform (forgets uuid) s = (delete_entry env (record { image_uuid = uuid; image_path = "" }) s).1

  abbrev pub perform_all : List Act → State → State
  perform_all [] s = s
  perform_all (a ∷ later) s = perform_all later (perform a s)

  perform-Represents :
      (a : Act) (s : State) (ledger : Ledger)
      → HasRoom 1 ledger
      → Represents s.associations ledger
      → Represents (perform a s).associations (act a ledger)
  perform-Represents (starts uuid path) s ledger room h k =
      rw (create-associations, lookup-insert, h uuid)
        (ground (arith, h k, room uuid, associate-entry path (ledger uuid)))
  perform-Represents (stops uuid) s ledger room h k =
      rw (delete-associations, lookup-if_insert, h uuid) (stopped-entry k uuid ledger _ h)
  perform-Represents (forgets uuid) s ledger room h k =
      rw (delete_entry-associations, lookup-erase) (ground (arith, h k))

  act-HasRoom :
      (a : Act) (n : ℕ) (ledger : Ledger) → HasRoom (suc n) ledger → HasRoom n (act a ledger)
  act-HasRoom (starts uuid path) n ledger room k = ground (arith, room k, room uuid)
  act-HasRoom (stops uuid) n ledger room k = ground (arith, room k, room uuid)
  act-HasRoom (forgets uuid) n ledger room k = ground (arith, room k, room uuid)

  -- After any acts, saved or not, the map holds what the ledger says.
  pub perform_all-Represents :
      (later : List Act) (s : State) (ledger : Ledger)
      → HasRoom (length later) ledger
      → Represents s.associations ledger
      → Represents (perform_all later s).associations (acts later ledger)
  perform_all-Represents [] s ledger room h = h
  perform_all-Represents (a ∷ later) s ledger room h =
      perform_all-Represents later (perform a s) (act a ledger)
        (act-HasRoom a (length later) ledger room)
        (perform-Represents a s ledger (λ k. omega (arith, room k)) h)

  -- After any acts, `Delete` answers that the VM is the last of its image exactly when at most one
  -- is running, and with the path of the image's first start, or with none where no VM runs.
  pub delete-acts :
      (later : List Act) (a : Association) (s : State) (ledger : Ledger)
      → HasRoom (length later) ledger
      → Represents s.associations ledger
      → let o = acts later ledger a.image_uuid in
        Answers
          (delete env a (perform_all later s)).0
          (ltb (running_of o) 2)
          (if ltb 0 (running_of o) then path_of o else "")
  delete-acts later a s ledger room h =
      let o = acts later ledger a.image_uuid in
      subst₂ (Answers (delete env a (perform_all later s)).0)
        (ap last_vm (perform_all-Represents later s ledger room h a.image_uuid)
          ∙ (stopped_answer o).0)
        (ap last_path (perform_all-Represents later s ledger room h a.image_uuid)
          ∙ (stopped_answer o).1)
        (delete-answer env a (perform_all later s))
