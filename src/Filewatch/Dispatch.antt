-- ===== src/Filewatch/Dispatch.antt =====
-- What the loop of `Watch` runs: for each event that arrives before the channels close, the
-- handler registered for its file, in the order of the events.
use Prim.Native.Nat.{bit_and}
use workload_agent.Prelude.{
  ℕ, String, eq_refl, ◌≡◌, refl, Option, none, some, List, [], ◌∷◌, ◌++◌, ◌==◌, str_eq, is_some,
  arith, if◌then◌else◌,
}
use workload_agent.Prelude.Assoc.{Assoc, lookup, lookup-insert, lookup-erase}
use workload_agent.Types.{Event, Handler, remove_mount_path}
use workload_agent.Filewatch.{
  Notice, event, error, closed, handle_event, unhandle_event, run_registered, run_handler, dispatch,
  watch,
}
use workload_agent.World.{Env, State, Call, watcher_mtx, lock, unlock, remove_all, watcher_add}
use workload_agent.World.Go.{◌>>=◌, returned}

module _ (env : Env) where
  -- The calls of a handler for an event.
  abbrev handler_calls : Option Handler → Event → List Call
  handler_calls none e = []
  handler_calls (some (remove_mount_path p)) e =
      if bit_and e.op env.fsnotify_remove == env.fsnotify_remove then remove_all p ∷ [] else []

  -- The calls of the loop, the latest first, on the calls `before` it: each event takes the
  -- watcher's lock around its handler, errors are skipped, and nothing runs after the close.
  abbrev pub watch_calls : Assoc Handler → List Notice → List Call → List Call
  watch_calls handlers [] before = before
  watch_calls handlers (closed ∷ later) before = before
  watch_calls handlers (error e ∷ later) before = watch_calls handlers later before
  watch_calls handlers (event e ∷ later) before = watch_calls handlers later (
      unlock watcher_mtx
      ∷ (handler_calls (lookup e.name handlers) e ++ (lock watcher_mtx ∷ before)))

  dispatch-calls :
      (e : Event) (s : State)
      → dispatch env e s ≡ (
        returned tt,
        record s {
          trace =
              unlock watcher_mtx
              ∷ (handler_calls (lookup e.name s.handlers) e ++ (lock watcher_mtx ∷ s.trace));
        },
      )
  unfolding dispatch run_registered run_handler ◌>>=◌
  dispatch-calls e s = ground arith

  -- The loop returns, and its calls are those of the registered handlers.
  pub watch-calls :
      (notices : List Notice) (s : State)
      → watch env notices s
        ≡ (returned tt, record s { trace = watch_calls s.handlers notices s.trace })
  unfolding watch ◌>>=◌
  watch-calls [] s = refl
  watch-calls (closed ∷ later) s = refl
  watch-calls (error e ∷ later) s = watch-calls later s
  watch-calls (event e ∷ later) s = rw (
    dispatch-calls e s,
    watch-calls later (record s {
      trace =
          unlock watcher_mtx
          ∷ (handler_calls (lookup e.name s.handlers) e ++ (lock watcher_mtx ∷ s.trace));
    }),
  )

  -- A registration that fails changes no handler and returns an error; one that succeeds replaces
  -- the handler of its file alone.
  pub handle_event-lookup :
      (file j : String) (h : Handler) (s : State)
      → lookup j (handle_event env file h s).1.handlers ≡ (
          if is_some (env.answer (watcher_add file) s.trace)
          then lookup j s.handlers
          else if str_eq file j
          then some h
          else lookup j s.handlers)
  unfolding handle_event ◌>>=◌
  handle_event-lookup file j h s = ground (arith, lookup-insert file j h s.handlers)

  pub unhandle_event-lookup :
      (file j : String) (s : State)
      → lookup j (unhandle_event env file s).1.handlers
        ≡ (if str_eq file j then none else lookup j s.handlers)
  unfolding unhandle_event ◌>>=◌
  unhandle_event-lookup file j s = ground (arith, lookup-erase file j s.handlers)

  -- Where a registration succeeds, an event of its file runs the new handler alone, under the
  -- watcher's lock, whatever handler the file had before.
  pub watch-handle_event :
      (file : String) (h : Handler) (op : ℕ) (s : State)
      → env.answer (watcher_add file) s.trace ≡ none
      → let t = (handle_event env file h s).1 in
        let e : Event = record { name = file; op = op } in
        (watch env (event e ∷ []) t).1.trace
        ≡ unlock watcher_mtx ∷ (handler_calls (some h) e ++ (lock watcher_mtx ∷ t.trace))
  watch-handle_event file h op s adds = rw (
    watch-calls (event (record { name = file; op = op }) ∷ []) (handle_event env file h s).1,
    handle_event-lookup file file h s,
    adds,
    eq_refl file,
  )
