-- ===== src/Association/Interleaved/File.antt =====
-- What concurrent saves leave in the file of the map (util/util.go).
use workload_agent.Prelude.{ℕ, ◌==◌, none, List, if◌then◌else◌}
use workload_agent.Association.Interleaved.{Text, intact, Place, idle, ended, Daemon}
use workload_agent.Association.Interleaved.Order.{Ordered}
use workload_agent.Association.Ledger.{Act}
use workload_agent.Types.{ImageVmAssociations}
use workload_agent.Association.Interleaved.Saves.{Saves, IsClean}

-- What is known of the file and the threads, beside the order of the changes.
record Consistent (old : Text) (m : ImageVmAssociations) (acts : List Act) (t : Daemon)
    : Type 0 where
  ordered : Ordered m acts t
  clean : IsClean acts m old t.file
  saves : (k : ℕ) → Saves acts m t.file (t.place k)

-- Two threads that start a VM of the same image.
abbrev pub two : Act → ℕ → Place
two a k = if k == 0 then idle a else if k == 1 then idle a else ended

abbrev pub started_daemon : Act → ImageVmAssociations → Daemon
started_daemon a m = record { map = m; file = intact m; holder = none; place = two a }
