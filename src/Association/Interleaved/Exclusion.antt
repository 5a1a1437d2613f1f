-- ===== src/Association/Interleaved/Exclusion.antt =====
-- The mutex of the map under concurrent RPC calls (wlavm/image_VM_association.go, util/util.go).
use mathlib.Core.Path.{subst}
use workload_agent.Prelude.{
  ℕ, ◌≡◌, ◌≢◌, ◌⊎◌, ◌==◌, inl, inr, sym, ap, ◌∙◌, Bool-cases, Option, none, some, List, arith,
}
use workload_agent.Association.Interleaved.{
  Place, inside, changing, marshalled, writing, filling, unmarshalling, ended, subject, after,
  Daemon, move, Step, enter, read_entry, change, marshal, lock_file, truncate, fill, give_up,
  refuse, deny, fail, open_text, unmarshal, finish_load, Run, start, later,
}
use workload_agent.Association.Ledger.{Act, starts, stops, forgets}
use workload_agent.Prelude.Assoc.{lookup}
use workload_agent.Types.{ImageVmAssociation}

-- The thread is in a part of the code that holds the mutex.
abbrev pub Holds : Place → Type 0
Holds (inside a) = Unit
Holds (changing a entry) = Unit
Holds (writing m) = Unit
Holds (filling m) = Unit
Holds _ = ⊥

-- Each thread that holds the mutex is the one that took it last.
abbrev pub IsExclusive : Daemon → Type 0
IsExclusive t = (k : ℕ) → Holds (t.place k) → t.holder ≡ some k

after_frees : (a : Act) (m : Option ImageVmAssociation) → Holds (after a m) → ⊥
after_frees (starts uuid path) m h = h
after_frees (stops uuid) m h = ground arith
after_frees (forgets uuid) m h = h

move-Holds :
    (i k : ℕ) (p : Place) (place : ℕ → Place)
    → Holds (move i p place k)
    → ((i ≡ k) × Holds p) ⊎ ((i ≢ k) × Holds (place k))
move-Holds i k p place h = elim (Bool-cases (i == k)) [
  | inl e ↦ inl (ground arith, rw e at h)
  | inr d ↦ inr (ground arith, rw d at h)
]

module _ (t : Daemon) (exclusive : IsExclusive t) where
  -- The thread `i` goes to a place without the mutex, which it did not hold.
  waits :
      (i : ℕ) (p : Place) → (Holds p → ⊥) → (k : ℕ) → Holds (move i p t.place k) → t.holder ≡ some k
  waits i p free k h = elim (move-Holds i k p t.place h) [
    | inl x ↦ absurd (free x.1)
    | inr x ↦ exclusive k x.1
  ]

  -- The thread `i` takes the mutex, which is free.
  takes :
      (i : ℕ) (p : Place) → t.holder ≡ none → (k : ℕ) → Holds (move i p t.place k) → some i ≡ some k
  takes i p free k h = elim (move-Holds i k p t.place h) [
    | inl x ↦ ap some x.0
    | inr x ↦ let e = exclusive k x.1 in cc
  ]

  -- The thread `i`, which holds the mutex, leaves it.
  leaves :
      (i : ℕ) (p : Place)
      → (Holds p → ⊥)
      → Holds (t.place i)
      → (k : ℕ) → Holds (move i p t.place k)
      → none ≡ some k
  leaves i p free held k h = elim (move-Holds i k p t.place h) [
    | inl x ↦ absurd (free x.1)
    | inr x ↦ let e = exclusive k x.1 in let f = exclusive i held in absurd (x.0 cc)
  ]

  pub place-Holds : (i : ℕ) (p : Place) → t.place i ≡ p → Holds p → Holds (t.place i)
  place-Holds i p at h = subst Holds (sym at) h

  -- The thread `i` goes from a place with the mutex to another one.
  stays :
      (i : ℕ) (p : Place)
      → Holds (t.place i)
      → (k : ℕ) → Holds (move i p t.place k)
      → t.holder ≡ some k
  stays i p held k h = elim (move-Holds i k p t.place h) [
    | inl x ↦ exclusive i held ∙ ap some x.0
    | inr x ↦ exclusive k x.1
  ]

  pub Step-IsExclusive : {u : Daemon} (o : Option Act) → Step t o u → IsExclusive u
  Step-IsExclusive o (enter i a at free) = takes i (inside a) free
  Step-IsExclusive o (read_entry i a at) =
      stays i (changing a (lookup (subject a) t.map)) (place-Holds i (inside a) at tt)
  Step-IsExclusive o (change i a entry at) =
      leaves i (after a entry) (after_frees a entry) (place-Holds i (changing a entry) at tt)
  Step-IsExclusive o (marshal i at) = waits i (marshalled t.map) λ h. h
  Step-IsExclusive o (lock_file i m at free) = takes i (writing m) free
  Step-IsExclusive o (truncate i m at) = stays i (filling m) (place-Holds i (writing m) at tt)
  Step-IsExclusive o (fill i m at) = leaves i ended (λ h. h) (place-Holds i (filling m) at tt)
  Step-IsExclusive o (give_up i at) = waits i ended λ h. h
  Step-IsExclusive o (refuse i m at) = waits i ended λ h. h
  Step-IsExclusive o (deny i m at) = leaves i ended (λ h. h) (place-Holds i (writing m) at tt)
  Step-IsExclusive o (fail i m at) = leaves i ended (λ h. h) (place-Holds i (filling m) at tt)
  Step-IsExclusive o (open_text i at free) = waits i unmarshalling λ h. h
  Step-IsExclusive o (unmarshal i m at) = exclusive
  Step-IsExclusive o (finish_load i at) = waits i ended λ h. h

Run-IsExclusive : {s t : Daemon} {acts : List Act} → IsExclusive s → Run s acts t → IsExclusive t
Run-IsExclusive exclusive start = exclusive
Run-IsExclusive exclusive (later {o} run step) =
    Step-IsExclusive _ (Run-IsExclusive exclusive run) o step

-- Where at first each thread that holds the mutex is the one that took it last, two threads that are
-- in the locked part of `Create`, `Delete`, `DeleteEntry` or `SaveImageVMAssociation` at the same
-- time, after any steps, are the same thread; a thread that loads the file may write the map beside
-- them.
pub Run-Holds :
    (s t : Daemon) (acts : List Act) (i k : ℕ)
    → IsExclusive s
    → Run s acts t
    → Holds (t.place i)
    → Holds (t.place k)
    → i ≡ k
Run-Holds s t acts i k exclusive run hi hk =
    let inv = Run-IsExclusive exclusive run in let e = inv i hi in let f = inv k hk in cc
