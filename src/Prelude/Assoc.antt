-- ===== src/Prelude/Assoc.antt =====
-- Go's `map[string]T`, as an association list whose order is never observed.
use Prim.Native.String.{String}
use mathlib.Core.Path.{◌≡◌, refl}
use mathlib.Core.Bool.{Bool, true, false}
use mathlib.Core.Option.{Option, none, some}
use mathlib.Core.List.{List, [], ◌∷◌}
use native.Mathlib.Omega.{arith}
use text.Mathlib.Text.{◌==◌}
use text.Mathlib.TextEquality.{eq_iff}
use workload_agent.Prelude.Tests.{if◌then◌else◌}

abbrev pub Assoc {ℓ} : Type ℓ → Type ℓ
Assoc V = List (String × V)

-- The entry of a map that is read first, put before what the rest of the map becomes.
abbrev put_before {ℓ} : {V : Type ℓ} → Bool → String × V → Assoc V → Assoc V → Assoc V
put_before true entry replaced kept = replaced
put_before false entry replaced kept = entry ∷ kept

module _ {ℓ} {V : Type ℓ} where
  -- `v, ok := entries[key]`
  unfoldable pub lookup : String → Assoc V → Option V
  lookup key [] = none
  lookup key ((name, value) ∷ entries) = if name == key then some value else lookup key entries

  -- `delete(entries, key)`
  unfoldable pub erase : String → Assoc V → Assoc V
  erase key [] = []
  erase key ((name, value) ∷ entries) =
      let rest = erase key entries in put_before (name == key) (name, value) rest rest

  -- `entries[key] = value`
  unfoldable pub insert : String → V → Assoc V → Assoc V
  insert key value [] = (key, value) ∷ []
  insert key value ((name, old) ∷ entries) =
      let rest = insert key value entries in
      put_before (name == key) (name, old) ((key, value) ∷ entries) rest

  pub lookup-erase :
      (key other : String) (entries : Assoc V)
      → lookup other (erase key entries) ≡ (if key == other then none else lookup other entries)
  unfolding lookup erase
  lookup-erase key other [] = ground arith
  lookup-erase key other ((name, value) ∷ entries) =
      ground (
        arith,
        lookup-erase key other entries,
        eq_iff name key,
        eq_iff name other,
        eq_iff key other,
      )

  pub lookup-insert :
      (key other : String) (value : V) (entries : Assoc V)
      → lookup other (insert key value entries)
        ≡ (if key == other then some value else lookup other entries)
  unfolding insert lookup
  lookup-insert key other value [] = refl
  lookup-insert key other value ((name, old) ∷ entries) = ground (
    arith,
    lookup-insert key other value entries,
    eq_iff name key,
    eq_iff name other,
    eq_iff key other,
  )
