-- ===== src/Prelude/Strings/Split.antt =====
-- How many pieces `strings.Split` gives.
use Prim.Native.Nat.{ℕ, zero, suc, ◌-◌}
use Prim.Native.String.{String, count, ◌++◌ as ◌<>◌}
use mathlib.Core.Path.{◌≡◌, refl, sym}
use mathlib.Core.Bool.{Bool, true, false, ◌||◌}
use mathlib.Core.List.{List, [], ◌∷◌}
use text.Mathlib.Text.{starts_with}
use workload_agent.Prelude.Tests.{if◌then◌else◌}
use workload_agent.Prelude.Strings.{contains, split, split_from}

-- The list has at least two members.
abbrev pub has_two : {A : Type 0} → List A → Bool
has_two [] = false
has_two (a ∷ []) = false
has_two (a ∷ b ∷ l) = true

has_two-cons :
    (b : Bool) (p q : String) (after onward : List String)
    → has_two (p ∷ onward) ≡ true
    → has_two (p ∷ (if b then q ∷ after else onward)) ≡ true
has_two-cons true p q after onward h = refl
has_two-cons false p q after onward h = h

-- Behind a piece there is another one.
has_two-split_from :
    (sep : String) (skip : ℕ) (piece s p : String)
    → has_two (p ∷ split_from sep skip piece s) ≡ true
unfolding split_from
has_two-split_from sep skip piece String.[] p = refl
has_two-split_from sep (suc skip) piece (String.◌∷◌ c s) p = has_two-split_from sep skip piece s p
has_two-split_from sep zero piece (String.◌∷◌ c s) p =
    has_two-cons (starts_with (String.◌∷◌ c s) sep) p piece (split_from sep (count sep - 1) "" s)
      (split_from sep zero (piece <> String.◌∷◌ c "") s)
      (has_two-split_from sep zero (piece <> String.◌∷◌ c "") s p)

has_two-choose :
    (b found : Bool) (piece : String) (after onward : List String)
    → has_two (piece ∷ after) ≡ true
    → has_two onward ≡ found
    → has_two (if b then piece ∷ after else onward) ≡ b || found
has_two-choose true found piece after onward h k = h
has_two-choose false found piece after onward h k = k

split_from-contains :
    (sep : String)
    → starts_with "" sep ≡ false
    → (piece s : String) → has_two (split_from sep zero piece s) ≡ contains s sep
unfolding split_from contains
split_from-contains sep h piece String.[] = sym h
split_from-contains sep h piece (String.◌∷◌ c s) =
    has_two-choose (starts_with (String.◌∷◌ c s) sep) (contains s sep) piece
      (split_from sep (count sep - 1) "" s) (split_from sep zero (piece <> String.◌∷◌ c "") s)
      (has_two-split_from sep (count sep - 1) "" s piece)
      (split_from-contains sep h (piece <> String.◌∷◌ c "") s)

-- There are two pieces or more just where the separator is in the text.
pub split-contains :
    (sep s : String) → starts_with "" sep ≡ false → has_two (split s sep) ≡ contains s sep
unfolding split
split-contains sep s h = split_from-contains sep h "" s
