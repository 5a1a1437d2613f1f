-- ===== src/Rpc/Tasks.antt =====
-- The tasks of package proc that the RPC methods begin and end (rpc/server.go): the daemon waits
-- for them before it stops.
use workload_agent.Prelude.{
  ap, String, Bool, true, false, ◌≡◌, refl, none, List, [], ◌∷◌, ◌++◌, All,
}
use workload_agent.Footprint.Services.{IsHarmless, domain_parser-Emitted}
use workload_agent.Footprint.Prepare.{MayPrepare, prepare-MayPrepare}
use workload_agent.Footprint.Start.{MayStart, start_vm-MayStart}
use workload_agent.Footprint.Stop.{MayStop, stop-MayStop}
use workload_agent.Libvirt.{DomainParser}
use workload_agent.Rpc
use workload_agent.Types.{Err}
use workload_agent.Wlavm.Prepare.{prepare_domain, prepare_vm}
use workload_agent.Wlavm.Start.{start_vm}
use workload_agent.Wlavm.Stop.{stop_domain, stop_vm}
use workload_agent.World.{Env, State, Call, add_task, task_done}
use workload_agent.World.Go.{
  Outcome, Flow, next, early, Go, ◌>>=◌, ◌>>◌, body, discard, returned, finish, settle, deferring,
  nil_or, invoke,
}
use workload_agent.World.Keeps.{
  Keeps, Emitted, Emits-Keeps, Since, Emitted-call, Emitted-invoke, keeps_rules,
}

abbrev pub IsNotTask : Call → Type 0
IsNotTask (add_task quits) = ⊥
IsNotTask task_done = ⊥
IsNotTask c = Unit

IsHarmless-IsNotTask : (c : Call) → IsHarmless c → IsNotTask c
IsHarmless-IsNotTask (add_task quits) h = absurd h
IsHarmless-IsNotTask task_done h = absurd h
IsHarmless-IsNotTask _ h = tt

MayStart-IsNotTask : (c : Call) → MayStart c → IsNotTask c
MayStart-IsNotTask (add_task quits) h = absurd h
MayStart-IsNotTask task_done h = absurd h
MayStart-IsNotTask _ h = tt

MayStop-IsNotTask : (d : DomainParser) (c : Call) → MayStop d c → IsNotTask c
MayStop-IsNotTask d (add_task quits) h = absurd h
MayStop-IsNotTask d task_done h = absurd h
MayStop-IsNotTask d _ h = tt

MayPrepare-IsNotTask : (d : DomainParser) (c : Call) → MayPrepare d c → IsNotTask c
MayPrepare-IsNotTask d (add_task quits) h = absurd h
MayPrepare-IsNotTask d task_done h = absurd h
MayPrepare-IsNotTask d _ h = tt

-- Between the calls `t` and `l`, one task was begun first and ended last, and no other.
pub record OneTask (quits : Bool) (t l : List Call) : Type 0 where
  pub between : List Call
  pub calls : l ≡ task_done ∷ (between ++ add_task quits ∷ t)
  pub none_between : All IsNotTask between

-- Nothing is asked where the process exits.
abbrev pub RunsOneTask {ℓ} : {A : Type ℓ} → Bool → List Call → Outcome A × State → Type 0
RunsOneTask quits t (returned a, s) = OneTask quits t s.trace
RunsOneTask quits t (Outcome.panicked, s) = OneTask quits t s.trace
RunsOneTask quits t (Outcome.exited n, s) = Unit

one_task :
    (quits : Bool) (t l : List Call)
    → Since IsNotTask (add_task quits ∷ t) l
    → OneTask quits t (task_done ∷ l)
one_task quits t l h = record {
  between = h.since;
  calls = ap (λ l. task_done ∷ l) h.grown;
  none_between = h.all;
}

module _ (env : Env) where
  finished :
      (quits : Bool) (t : List Call) (r : Flow (Bool × Err) (Bool × Err) × State)
      → Emitted IsNotTask (add_task quits ∷ t) r.1
      → RunsOneTask quits t (settle (finish r (discard env task_done)))
  unfolding discard
  finished quits t (next a, s) h = one_task quits t s.trace h
  finished quits t (early a, s) h = one_task quits t s.trace h
  finished quits t (Flow.panicked, s) h = one_task quits t s.trace h
  finished quits t (Flow.exited n, s) h = tt

  start_vm-Keeps : (t : List Call) (xml : String) → Keeps (Emitted IsNotTask t) (start_vm env xml)
  start_vm-Keeps t xml =
      Emits-Keeps (start_vm env xml) MayStart-IsNotTask (start_vm-MayStart env xml)

  stop_domain-Keeps :
      (t : List Call) (d : DomainParser) → Keeps (Emitted IsNotTask t) (stop_domain env d)
  stop_domain-Keeps t d = Emits-Keeps (stop_domain env d) (MayStop-IsNotTask d) (stop-MayStop env d)

  prepare_domain-Keeps :
      (t : List Call) (d : DomainParser) → Keeps (Emitted IsNotTask t) (prepare_domain env d)
  prepare_domain-Keeps t d =
      Emits-Keeps (prepare_domain env d) (MayPrepare-IsNotTask d) (prepare-MayPrepare env d)

  stop_vm-Keeps : (t : List Call) (xml : String) → Keeps (Emitted IsNotTask t) (stop_vm env xml)
  unfolding stop_vm
  stop_vm-Keeps t xml =
      search (keeps_rules, domain_parser-Emitted, stop_domain-Keeps, IsHarmless-IsNotTask) depth 40

  prepare_vm-Keeps :
      (t : List Call) (xml : String) → Keeps (Emitted IsNotTask t) (prepare_vm env xml)
  unfolding prepare_vm
  prepare_vm-Keeps t xml =
      search (keeps_rules, domain_parser-Emitted, prepare_domain-Keeps, IsHarmless-IsNotTask) depth
        40

  begun :
      (quits : Bool) (s : State) (on_error : String → Bool × Err) (m : Go (Bool × Err) (Bool × Err))
      → env.answer (add_task quits) s.trace ≡ none
      → ((t : List Call) → Keeps (Emitted IsNotTask t) m)
      → RunsOneTask quits s.trace (
          body
            (do
              added ← invoke env (add_task quits)
              nil_or added on_error
              deferring (discard env task_done) m)
            s)
  unfolding ◌>>=◌
  begun quits s on_error m adds keeps =
      let t = add_task quits ∷ s.trace in
      let start = record s { trace = t } in
      rw adds (
        finished quits s.trace (m start)
          ((keeps t).at start (record { since = []; grown = refl; all = tt })))

  discard-Keeps :
      (t : List Call) (c : Call) → IsNotTask c → Keeps (Emitted IsNotTask t) (discard env c)
  unfolding discard
  discard-Keeps t c h = record { at = λ s all. Emitted-call env c s h all }

  ruleset rules =
      (keeps_rules, Emitted-invoke, discard-Keeps, start_vm-Keeps, stop_vm-Keeps, prepare_vm-Keeps)

  -- Where its task can be begun, each RPC method ends it as its last call, also where it panics, and
  -- begins and ends no other task; nothing is said of a process that exits.
  pub method-RunsOneTask :
      (xml : String) (reply : Bool) (s : State)
      → ((quits : Bool) → env.answer (add_task quits) s.trace ≡ none)
      → RunsOneTask false s.trace (Rpc.start env xml reply s)
        × RunsOneTask false s.trace (Rpc.prepare env xml reply s)
        × RunsOneTask true s.trace (Rpc.stop env xml reply s)
  unfolding Rpc.start Rpc.prepare Rpc.stop
  method-RunsOneTask xml reply s adds = (
    begun false s _ _ (adds false) (λ t. search rules depth 40),
    begun false s _ _ (adds false) (λ t. search rules depth 40),
    begun true s _ _ (adds true) (λ t. search rules depth 40),
  )
