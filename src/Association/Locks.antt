-- ===== src/Association/Locks.antt =====
-- The locks of the association map.
use workload_agent.Prelude.{String, false, ◌≡◌, List}
use workload_agent.Association.{
  Association, load_image_vm_association, save_image_vm_association, create, delete, delete_entry,
  image_path_from_vm_association_file,
}
use workload_agent.World.{Env, Mutex, map_mtx}
use workload_agent.World.Locks.{Balanced, holds, locks_rules, Locks-modify}

module _ (env : Env) {l : List Mutex} (free : holds map_mtx l ≡ false) where
  pub save-Balanced : Balanced l (save_image_vm_association env)
  unfolding save_image_vm_association
  save-Balanced = search locks_rules depth 40

  pub create-Balanced : (a : Association) → Balanced l (create env a)
  unfolding create
  create-Balanced a = search (locks_rules, Locks-modify, save-Balanced) depth 40

  pub delete-Balanced : (a : Association) → Balanced l (delete env a)
  unfolding delete
  delete-Balanced a = search (locks_rules, Locks-modify, save-Balanced) depth 40

  pub delete_entry-Balanced : (a : Association) → Balanced l (delete_entry env a)
  unfolding delete_entry
  delete_entry-Balanced a = search (locks_rules, Locks-modify, save-Balanced) depth 40

  pub load-Balanced : Balanced l (load_image_vm_association env)
  unfolding load_image_vm_association
  load-Balanced = search (locks_rules, Locks-modify) depth 40

  pub path-Balanced : (uuid : String) → Balanced l (image_path_from_vm_association_file env uuid)
  unfolding image_path_from_vm_association_file
  path-Balanced uuid = search (locks_rules, load-Balanced) depth 40
