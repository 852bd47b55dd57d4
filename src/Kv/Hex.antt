-- ===== src/Kv/Hex.antt =====
-- `key_type::to_hex` and `full_key::from_hex` of contracts/eosio/kv_base.hpp.
pub mod RoundTrip
use Prim.Native.Nat.{bit_or}
use taurus_cdt.Prelude.{
  ℕ, ◌+◌, ◌-◌, ◌*◌, ◌/◌, ◌%◌, ◌^◌, List, [], ◌∷◌, ◌++◌, Option, none, some, leb, ◌||◌,
  if◌then◌else◌, get_or,
}

-- The digits 0 to 9 and a to f.
unfoldable pub hex_character : ℕ → ℕ
hex_character n =
    get_or
      (b'0' ∷ b'1' ∷ b'2' ∷ b'3' ∷ b'4' ∷ b'5' ∷ b'6' ∷ b'7' ∷ b'8' ∷ b'9' ∷ b'a' ∷ b'b' ∷ b'c'
        ∷ b'd' ∷ b'e' ∷ b'f' ∷ [])
      n 0

-- The loop over the bytes. The length test of `to_hex` cannot fail for a vector in memory.
unfoldable pub to_hex : List ℕ → List ℕ
unfolding hex_character
to_hex [] = []
to_hex (d ∷ ds) = hex_character (d / 2 ^ 4) ∷ hex_character (d % 2 ^ 4) ∷ to_hex ds

-- The value of a digit, as a `uint8_t`. A `char` from 128 on is negative, so not above '9'.
unfoldable pub hex_value : ℕ → ℕ
hex_value c =
    if leb c b'9' || leb (2 ^ 7) c
    then (c + 2 ^ 8 - b'0') % 2 ^ 8
    else (10 + (c + 2 ^ 8 - b'a')) % 2 ^ 8

-- `char((hi << 4) | low)` for `uint8_t` digits; `low` has four bits where both are digits.
unfoldable pub hex_byte : ℕ → ℕ → ℕ
hex_byte hi low = bit_or (hi * 2 ^ 4) low % 2 ^ 8

-- `none` is the failed check "invalid hex string length".
unfoldable pub from_hex : List ℕ → Option (List ℕ)
unfolding hex_value hex_byte
from_hex [] = some []
from_hex (hic ∷ []) = none
from_hex (hic ∷ lowc ∷ cs) = elim (from_hex cs) [
  | none ↦ none
  | some out ↦ some (hex_byte (hex_value hic) (hex_value lowc) ∷ out)
]
