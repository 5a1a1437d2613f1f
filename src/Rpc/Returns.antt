-- ===== src/Rpc/Returns.antt =====
-- The RPC method Stop always returns (rpc/server.go, wlavm/stop.go).
use workload_agent.Prelude.{String, Bool}
use workload_agent.Prelude.{arith}
use workload_agent.Prelude.Assoc.{lookup, insert}
use workload_agent.Association.{Association, delete, dissociate}
use workload_agent.Association.Entries.{written, save-IsReturned}
use workload_agent.Libvirt.{DomainParser, QemuIntercept, new_domain_parser}
use workload_agent.Rpc.{stop}
use workload_agent.Wlavm.Stop.{
  is_vm_volume_encrypted, close_volume, close_image, stop_domain, stop_vm,
}
use workload_agent.World.{Env, State}
use workload_agent.World.Go.{IsReturned, ◌>>=◌}
use workload_agent.World.Returns.{Returns, Proceeds, returns_rules}

module _ (env : Env) where
  -- `Delete` reads the count of no entry that is not there.
  delete-Returns : (a : Association) → Returns (delete env a)
  unfolding delete ◌>>=◌
  delete-Returns a = record {
    at = λ s. ground (
      arith,
      save-IsReturned env (
          written
            (insert a.image_uuid (dissociate (lookup a.image_uuid s.associations)) s.associations)
            s),
    );
  }

  parser-Returns : (xml : String) (i : QemuIntercept) → Returns (new_domain_parser env xml i)
  unfolding new_domain_parser
  parser-Returns xml i = search returns_rules depth 40

  encrypted-Returns : (uuid : String) → Returns (is_vm_volume_encrypted env uuid)
  unfolding is_vm_volume_encrypted
  encrypted-Returns uuid = search returns_rules depth 40

  close_image-Proceeds :
      (d : DomainParser) (is_last : Bool) (path : String)
      → Proceeds (close_image env d is_last path)
  unfolding close_image close_volume
  close_image-Proceeds d is_last path = search returns_rules depth 40

  stop_vm-Returns : (xml : String) → Returns (stop_vm env xml)
  unfolding stop_vm stop_domain close_volume
  stop_vm-Returns xml =
      search
        (returns_rules, parser-Returns, encrypted-Returns, delete-Returns, close_image-Proceeds)
        depth 60 fits 3000

  -- The RPC method Stop returns, whatever the answers of the outside and whatever entries the map
  -- has, none of them a nil pointer: it neither panics, as on the count of an entry that is not
  -- there, nor exits.
  pub stop-Returns : (xml : String) (reply : Bool) (s : State) → IsReturned (stop env xml reply s).0
  unfolding stop
  stop-Returns xml reply s =
      let returns : Returns (stop env xml reply) =
        search (returns_rules, stop_vm-Returns) depth 60 in
      returns.at s
