-- ===== src/Keys/Hex.antt =====
-- `hex.EncodeToString` of Go's package encoding/hex.
use Prim.Native.Nat.{◌/◌, ◌%◌}
use workload_agent.Prelude.{ℕ, zero, suc, String, ◌<>◌, [], ◌∷◌}
use workload_agent.Types.{Bytes}

abbrev hex_digits : String
hex_digits = "0123456789abcdef"

digit_of : ℕ → String → String
digit_of n String.[] = ""
digit_of zero (String.◌∷◌ c s) = String.◌∷◌ c ""
digit_of (suc n) (String.◌∷◌ c s) = digit_of n s

-- Two digits for each byte.
unfoldable pub encode_hex : Bytes → String
unfolding digit_of
encode_hex [] = ""
encode_hex (b ∷ bytes) =
    digit_of (b / 16) hex_digits <> (digit_of (b % 16) hex_digits <> encode_hex bytes)
