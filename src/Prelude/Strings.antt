-- ===== src/Prelude/Strings.antt =====
-- What the agent uses of Go's packages `strings` and `unicode`.
pub mod Split
use Prim.Native.Nat.{ℕ, zero, suc, ◌-◌}
use Prim.Native.Char.{Char, code}
use Prim.Native.String.{String, count, ◌++◌ as ◌<>◌}
use mathlib.Core.Bool.{Bool, true, ◌&&◌, ◌||◌}
use mathlib.Core.List.{List, [], ◌∷◌}
use text.Mathlib.Text.{starts_with}
use workload_agent.Prelude.Tests.{◌==◌, ltb, if◌then◌else◌}

-- `strings.Contains(s, sub)`
unfoldable pub contains : String → String → Bool
contains String.[] sub = starts_with "" sub
contains (String.◌∷◌ c s) sub = starts_with (String.◌∷◌ c s) sub || contains s sub

-- The first `skip` characters belong to a separator that was found before them; `piece` is what
-- the walk has read since.
unfoldable split_from : String → ℕ → String → String → List String
split_from sep skip piece String.[] = piece ∷ []
split_from sep (suc skip) piece (String.◌∷◌ c s) = split_from sep skip piece s
split_from sep zero piece (String.◌∷◌ c s) =
    let after = split_from sep (count sep - 1) "" s in
    let onward = split_from sep zero (piece <> String.◌∷◌ c "") s in
    if starts_with (String.◌∷◌ c s) sep then piece ∷ after else onward

-- `strings.Split(s, sep)` for a separator that is not empty.
unfoldable pub split : String → String → List String
unfolding split_from
split s sep = split_from sep zero "" s

-- `strings.Replace(s, old, new, -1)` for an `old` that is not empty.
replace_from : String → String → ℕ → String → String
replace_from old new skip String.[] = ""
replace_from old new (suc skip) (String.◌∷◌ c s) = replace_from old new skip s
replace_from old new zero (String.◌∷◌ c s) =
    let after = new <> replace_from old new (count old - 1) s in
    let onward = String.◌∷◌ c (replace_from old new zero s) in
    if starts_with (String.◌∷◌ c s) old then after else onward

unfoldable pub replace : String → String → String → String
unfolding replace_from
replace s old new = replace_from old new zero s

-- `unicode.IsSpace`
unfoldable pub is_space : Char → Bool
is_space ch =
    let c = code ch in
    (ltb 8 c && ltb c 14)
    || c == 0x20
    || c == 0x85
    || c == 0xa0
    || c == 0x1680
    || (ltb 0x1fff c && ltb c 0x200b)
    || c == 0x2028
    || c == 0x2029
    || c == 0x202f
    || c == 0x205f
    || c == 0x3000

trim_left : String → String
trim_left String.[] = ""
trim_left (String.◌∷◌ c s) = let rest = trim_left s in if is_space c then rest else String.◌∷◌ c s

is_blank : String → Bool
is_blank String.[] = true
is_blank (String.◌∷◌ c s) = is_space c && is_blank s

trim_right : String → String
trim_right String.[] = ""
trim_right (String.◌∷◌ c s) = if is_blank (String.◌∷◌ c s) then "" else String.◌∷◌ c (trim_right s)

-- `strings.TrimSpace(s)`
unfoldable pub trim_space : String → String
unfolding trim_left trim_right is_blank is_space
trim_space s = trim_right (trim_left s)

-- The word that ends here, in front of the later words, if it has a character.
flush : String → List String → List String
flush String.[] words = words
flush (String.◌∷◌ c w) words = String.◌∷◌ c w ∷ words

fields_from : String → String → List String
fields_from word String.[] = flush word []
fields_from word (String.◌∷◌ c s) =
    let after = fields_from "" s in
    let onward = fields_from (word <> String.◌∷◌ c "") s in
    if is_space c then flush word after else onward

-- `strings.Fields(s)`
unfoldable pub fields : String → List String
unfolding fields_from flush is_space
fields s = fields_from "" s
