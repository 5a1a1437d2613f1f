-- ===== src/Tests/Threads.antt =====
-- The theorems on concurrent RPC calls, on two threads that start a VM of the same image.
use workload_agent.Prelude.{ℕ, ◌≡◌, refl, none, some, [], ◌∷◌, arith}
use workload_agent.Association.Interleaved.{
  changed, intact, inside, changing, unsaved, marshalled, writing, filling, ended, Daemon, move,
  enter, read_entry, change, marshal, lock_file, truncate, fill, Run, start, later,
}
use workload_agent.Association.Interleaved.Exclusion.{IsExclusive, Run-Holds}
use workload_agent.Association.Interleaved.File.{started_daemon}
use workload_agent.Association.Interleaved.Order.{IsInitial, performs, Run-performs}
use workload_agent.Prelude.Assoc.{lookup}
use workload_agent.Association.Ledger.{Act, starts}
use workload_agent.Tests.Calm.{calm, daemon, crypto_path}
use workload_agent.Types.{ImageVmAssociations}

abbrev first : ℕ
first = 0

abbrev begins : Act
begins = starts "image" crypto_path

abbrev begun : Daemon
begun = started_daemon begins []

abbrev one : ImageVmAssociations
one = changed begins []

abbrev entered : Daemon
entered = record begun { holder = some 0; place = move 0 (inside begins) begun.place }

abbrev saved : Daemon
saved = record {
  map = one;
  file = intact one;
  holder = none;
  place = move 0 ended (
      move 0 (filling one) (
        move 0 (writing one) (
          move 0 (marshalled one) (move 0 unsaved (move 0 (changing begins none) entered.place)))));
}

run_entered : Run begun [] entered
run_entered = later start (enter 0 begins refl refl)

run_changed : Run begun (begins ∷ []) (record begun {
  map = one;
  place = move 0 unsaved (move 0 (changing begins none) entered.place);
})
unfolding lookup
run_changed = later (later run_entered (read_entry 0 begins refl)) (change 0 begins none refl)

run_saved : Run begun (begins ∷ []) saved
run_saved =
    later
      (later (later (later run_changed (marshal 0 refl)) (lock_file 0 one refl refl))
        (truncate 0 one refl))
      (fill 0 one refl)

begun-IsInitial : (k : ℕ) → IsInitial (begun.place k)
begun-IsInitial k = ground arith

begun-IsExclusive : IsExclusive begun
begun-IsExclusive k h = ground arith

Run-performs_example : saved.map ≡ (performs calm (begins ∷ []) (daemon [])).associations
Run-performs_example =
    Run-performs calm (daemon []) begun saved (begins ∷ []) refl begun-IsInitial run_saved

Run-Holds_example : first ≡ first
Run-Holds_example = Run-Holds begun entered [] first first begun-IsExclusive run_entered tt tt
