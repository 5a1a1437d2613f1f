-- ===== src/Wlavm/Volume/Links.antt =====
-- What a `createSymLinkAndChangeOwnership` without an error has done (wlavm/prepare.go).
use workload_agent.Prelude.{String, ◌≡◌, ◌⊎◌, none, ◌∷◌, List, is_some, true, arith, refl}
use workload_agent.Prelude.Int.{ℤ}
use workload_agent.Association.Persistence.{WrapsErrors}
use workload_agent.Types.{Result, User, ok, err}
use workload_agent.Wlavm.Volume.{user_info_look_up, create_sym_link_and_change_ownership}
use workload_agent.World.{
  Env, State, Call, user_lookup, remove_all, symlink, lchown, chmod, chown_r,
}
use workload_agent.World.Go.{◌>>=◌, returned}

module _ (target source mount_point : String) (uid gid : ℤ) (t : List Call) where
  abbrev removed : List Call
  removed = remove_all source ∷ t

  abbrev linked : List Call
  linked = symlink target source ∷ removed

  abbrev owned : List Call
  owned = lchown source uid gid ∷ linked

  abbrev permitted : List Call
  permitted = chmod target 0o664 ∷ owned

  abbrev finished : List Call
  finished = chown_r mount_point uid gid ∷ permitted

  -- The source was removed and is a link to the target now, it and the mount point have their owner
  -- and the target its permissions: these calls, in this order, all gave no error.
  abbrev Linked : Env → List Call → Type 0
  Linked env l =
      (env.answer (remove_all source) t ≡ none)
      × (env.answer (symlink target source) removed ≡ none)
      × (env.answer (lchown source uid gid) linked ≡ none)
      × (env.answer (chmod target 0o664) owned ≡ none)
      × (env.answer (chown_r mount_point uid gid) permitted ≡ none)
      × (l ≡ finished)

  -- The removal of the source failed, and was the last call.
  abbrev Unremoved : Env → List Call → Type 0
  Unremoved env l = (is_some (env.answer (remove_all source) t) ≡ true) × (l ≡ removed)

module _ (env : Env) (target source mount_point : String) (s : State) where
  abbrev asked : List Call
  asked = user_lookup "qemu" ∷ s.trace

  -- What the function has done for a user that it found.
  abbrev pub DoneFor : User → List Call → Type 0
  DoneFor user l =
      Linked target source mount_point (env.atoi user.uid) (env.atoi user.gid) asked env l
      ⊎ Unremoved target source mount_point (env.atoi user.uid) (env.atoi user.gid) asked env l

  link-DoneFor :
      (user : User)
      → WrapsErrors env
      → env.answer (user_lookup "qemu") s.trace ≡ ok user
      → (create_sym_link_and_change_ownership env target source mount_point s).0 ≡ returned none
      → DoneFor user (create_sym_link_and_change_ownership env target source mount_point s).1.trace
  unfolding create_sym_link_and_change_ownership user_info_look_up ◌>>=◌
  link-DoneFor user wraps known h = let k = rw known at h in rw known (grind (arith, wraps))

  link-found :
      (r : Result User)
      → WrapsErrors env
      → env.answer (user_lookup "qemu") s.trace ≡ r
      → (create_sym_link_and_change_ownership env target source mount_point s).0 ≡ returned none
      → (user : User) × (env.answer (user_lookup "qemu") s.trace ≡ ok user)
        × DoneFor user
            (create_sym_link_and_change_ownership env target source mount_point s).1.trace
  unfolding create_sym_link_and_change_ownership user_info_look_up ◌>>=◌
  link-found (ok user) wraps known h = (user, known, link-DoneFor user wraps known h)
  link-found (err e) wraps known h =
      let k = rw known at h in
      absurd (
        ground (
          arith,
          wraps e "wlavm/prepare:userInfoLookUp() error trying to look up qemu userID and groupID",
        ))

  -- Where wrapping an error gives an error and `createSymLinkAndChangeOwnership` returns no error, the
  -- user qemu was found, and either the source was removed and then made a link to the target, with
  -- the owner of the link, the permissions of the target and the owner of the mount point set, each
  -- without an error; or the removal of the source failed, and nothing was done after it.
  pub create_sym_link-DoneFor :
      WrapsErrors env
      → (create_sym_link_and_change_ownership env target source mount_point s).0 ≡ returned none
      → (user : User) × (env.answer (user_lookup "qemu") s.trace ≡ ok user)
        × DoneFor user
            (create_sym_link_and_change_ownership env target source mount_point s).1.trace
  create_sym_link-DoneFor wraps h =
      link-found (env.answer (user_lookup "qemu") s.trace) wraps refl h
