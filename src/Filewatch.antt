-- ===== src/Filewatch.antt =====
-- filewatch/filewatch.go: handlers for file events, run by a loop over the events. The handlers
-- are those of the agent: wlavm/prepare.go registers one that removes a mount path.
pub mod Dispatch
use Prim.Native.Nat.{bit_and}
use workload_agent.Prelude.{String, List, [], ◌∷◌, Option, none, some, ◌==◌}
use workload_agent.Prelude.Assoc.{lookup, insert, erase}
use workload_agent.Types.{Err, Event, Handler, remove_mount_path}
use workload_agent.World.{
  Env, watcher_mtx, lock, unlock, remove_all, watcher_add, new_fsnotify_watcher,
}
use workload_agent.World.Go.{
  Func, ◌>>=◌, ◌>>◌, pure, return, call, body, invoke, gets, modify, when, nil_or,
}

-- What the loop of `Watch` receives from the watcher's two channels.
pub data Notice : Type 0 where
  event : Event → Notice
  error : String → Notice
  closed : Notice

module _ (env : Env) where
  -- `NewWatcher`: a watcher with no handler.
  unfoldable pub new_watcher : Func Err
  new_watcher = body do
    failure ← invoke env new_fsnotify_watcher
    nil_or failure
        λ e. env.wrap (some e) "filewatch/filewatch:NewWatcher() Could not create watcher"
    modify λ s. record s { handlers = [] }
    return none

  -- `Watcher.HandleEvent`
  unfoldable pub handle_event : String → Handler → Func Err
  handle_event file handler = body do
    failure ← invoke env (watcher_add file)
    nil_or failure
        λ e. env.wrap (some e) "filewatch/filewatch:HandleEvent() Could not add file to the event"
    invoke env (lock watcher_mtx)
    modify λ s. record s { handlers = insert file handler s.handlers }
    invoke env (unlock watcher_mtx)
    return none

  -- `Watcher.UnhandleEvent`
  unfoldable pub unhandle_event : String → Func (Unit {0})
  unhandle_event file = body do
    invoke env (lock watcher_mtx)
    modify λ s. record s { handlers = erase file s.handlers }
    invoke env (unlock watcher_mtx)
    pure tt

  -- The closure that `vmVolumeManager` registers.
  unfoldable pub run_handler : Handler → Event → Func (Unit {0})
  run_handler (remove_mount_path vm_mount_path) e = body do
    when (bit_and e.op env.fsnotify_remove == env.fsnotify_remove)
        do invoke env (remove_all vm_mount_path); pure tt

  unfoldable pub run_registered : Option Handler → Event → Func (Unit {0})
  run_registered none e = body (pure tt)
  run_registered (some h) e = run_handler h e

  -- The case of the loop for an event.
  unfoldable pub dispatch : Event → Func (Unit {0})
  unfolding run_registered
  dispatch e = body do
    invoke env (lock watcher_mtx)
    h ← gets λ s. lookup e.name s.handlers
    call (run_registered h e)
    invoke env (unlock watcher_mtx)
    pure tt

  -- `Watcher.Watch` on the notices that arrive; behind the last it waits.
  unfoldable pub watch : List Notice → Func (Unit {0})
  watch [] = body (pure tt)
  watch (closed ∷ later) = body (return tt)
  watch (error e ∷ later) = watch later
  watch (event e ∷ later) = body do call (dispatch e); call (watch later)
