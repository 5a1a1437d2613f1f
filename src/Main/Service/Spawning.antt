-- ===== src/Main/Service/Spawning.antt =====
-- The goroutines of the daemon and of the gRPC service (main.go).
use mathlib.Core.Path.{subst}
use workload_agent.Prelude.{false, ◌≡◌, sym, none, List, [], ◌∷◌, arith}
use workload_agent.Association.{load_image_vm_association}
use workload_agent.Filewatch.{new_watcher}
use workload_agent.Main.Service.{begin, make_run_dir, runservice, run_grpc_service}
use workload_agent.Tpm.{get_tpm_instance}
use workload_agent.Types.{Goroutine}
use workload_agent.World.{Env, State, Call, add_task, spawn}
use workload_agent.World.Go.{Go, ◌>>=◌, invoke, modify, discard}
use workload_agent.World.Keeps.{Keeps, Keeps-body, Keeps-bind, keeps_rules}

abbrev pub IsNotSpawn : Call → Type 0
IsNotSpawn (spawn g) = ⊥
IsNotSpawn c = Unit

module _ (env : Env) where
  -- The latest call began a task.
  abbrev pub HasBegun : List Call → Type 0
  HasBegun (add_task quits ∷ t) = env.answer (add_task quits) t ≡ none
  HasBegun _ = ⊥

  -- Each goroutine was started directly after a task was begun for it.
  abbrev pub SpawnsTasks : List Call → Type 0
  SpawnsTasks [] = Unit
  SpawnsTasks (spawn g ∷ t) = HasBegun t × SpawnsTasks t
  SpawnsTasks (_ ∷ t) = SpawnsTasks t

  abbrev Spawned : State → Type 0
  Spawned s = SpawnsTasks s.trace

  Spawned-cons : (c : Call) (t : List Call) → IsNotSpawn c → SpawnsTasks t → SpawnsTasks (c ∷ t)
  Spawned-cons (spawn g) t n h = absurd n
  Spawned-cons _ t n h = h

  Spawned-invoke {ℓ} : {R : Type ℓ} (c : Call) → IsNotSpawn c → Keeps Spawned (invoke {R = R} env c)
  unfolding invoke
  Spawned-invoke c n = record { at = λ s h. Spawned-cons c s.trace n h }

  Spawned-modify {ℓ} :
      {R : Type ℓ} (f : State → State)
      → ((s : State) → (f s).trace ≡ s.trace)
      → Keeps Spawned (modify {R = R} f)
  unfolding modify
  Spawned-modify f same = record { at = λ s h. subst SpawnsTasks (sym (same s)) h }

  Spawned-discard : (c : Call) → IsNotSpawn c → Keeps Spawned (discard env c)
  unfolding discard
  Spawned-discard c n = record { at = λ s h. Spawned-cons c s.trace n h }

  -- `AddTask` and `go`.
  Spawned-begin :
      (g : Goroutine) (m : Go (Unit {0}) (Unit {0}))
      → Keeps Spawned m
      → Keeps Spawned (begin env >>= λ u. invoke env (spawn g) >>= λ v. m)
  unfolding begin ◌>>=◌
  Spawned-begin g m km = record {
    at = λ s h.
        let started = km.at (record s { trace = spawn g ∷ add_task false ∷ s.trace }) in
        ground arith;
  }

  ruleset rules = (Spawned-begin, keeps_rules, Spawned-invoke, Spawned-modify, Spawned-discard)

  load-Spawned : Keeps Spawned (load_image_vm_association env)
  unfolding load_image_vm_association
  load-Spawned = search rules depth 40

  tpm-Spawned : Keeps Spawned (get_tpm_instance env)
  unfolding get_tpm_instance
  tpm-Spawned = search rules depth 40

  watcher-Spawned : Keeps Spawned (new_watcher env)
  unfolding new_watcher
  watcher-Spawned = search rules depth 40

  run_dir-Spawned : Keeps Spawned (make_run_dir env)
  unfolding make_run_dir
  run_dir-Spawned = search rules depth 40

  runservice-Spawned : Keeps Spawned (runservice env)
  unfolding runservice
  runservice-Spawned =
      search (rules, load-Spawned, tpm-Spawned, watcher-Spawned, run_dir-Spawned) depth 60 fits 3000

  grpc-Spawned : Keeps Spawned (run_grpc_service env)
  unfolding run_grpc_service
  grpc-Spawned = Keeps-body _ (
      Keeps-bind _ _ (search rules depth 20) λ info.
        Keeps-bind _ _ (search rules depth 20)
          λ u. search (rules, run_dir-Spawned) depth 60 fits 3000)

  -- Where it was so before, each goroutine that the daemon or the gRPC service starts is started
  -- directly after a task was begun for it without an error, however the process ends.
  pub services-SpawnsTasks :
      (s : State)
      → SpawnsTasks s.trace
      → SpawnsTasks (runservice env s).1.trace × SpawnsTasks (run_grpc_service env s).1.trace
  services-SpawnsTasks s h = (runservice-Spawned.at s h, grpc-Spawned.at s h)
