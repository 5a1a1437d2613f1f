-- ===== src/Rpc.antt =====
-- rpc/server.go: the RPC methods of the daemon. Each takes the value that `reply` holds before,
-- and returns the value that it holds afterwards beside the error.
pub mod Tasks
pub mod Returns
use workload_agent.Prelude.{String, Bool, true, false, none, some}
use workload_agent.Types.{Err}
use workload_agent.World.{Env, add_task, task_done, validate_xml_string, lock, unlock, wla_mtx}
use workload_agent.World.Go.{
  Func, ◌>>=◌, ◌>>◌, return, call, deferring, body, invoke, nil_or, discard,
}
use workload_agent.Wlavm.Prepare.{prepare_vm}
use workload_agent.Wlavm.Start.{start_vm}
use workload_agent.Wlavm.Stop.{stop_vm}

module _ (env : Env) where
  -- `VirtualMachine.Start`
  unfoldable pub start : String → Bool → Func (Bool × Err)
  start xml reply = body do
    added ← invoke env (add_task false)
    nil_or added
        λ e. (reply, env.wrap (some e) "rpc/server:Start() Could not add task for vm start")
    deferring (discard env task_done) do
      invalid ← invoke env (validate_xml_string xml)
      nil_or invalid λ e. (reply, none)
      started ← call (start_vm env xml)
      return (started, none)

  -- `VirtualMachine.Prepare`
  unfoldable pub prepare : String → Bool → Func (Bool × Err)
  prepare xml reply = body do
    added ← invoke env (add_task false)
    nil_or added
        λ e. (reply, env.wrap (some e) "rpc/server:Prepare() Could not add task for vm prepare")
    deferring (discard env task_done) do
      invoke env (lock wla_mtx)
      deferring (discard env (unlock wla_mtx)) do
        invalid ← invoke env (validate_xml_string xml)
        nil_or invalid λ e. (reply, none)
        prepared ← call (prepare_vm env xml)
        return (prepared, none)

  -- `VirtualMachine.Stop`
  unfoldable pub stop : String → Bool → Func (Bool × Err)
  stop xml reply = body do
    added ← invoke env (add_task true)
    nil_or added λ e. (reply, env.wrap (some e) "rpc/server:Stop() Could not add task for vm stop")
    deferring (discard env task_done) do
      invoke env (lock wla_mtx)
      deferring (discard env (unlock wla_mtx)) do
        invalid ← invoke env (validate_xml_string xml)
        nil_or invalid λ e. (reply, none)
        stopped ← call (stop_vm env xml)
        return (stopped, none)
