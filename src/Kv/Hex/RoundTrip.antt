-- ===== src/Kv/Hex/RoundTrip.antt =====
-- `from_hex` of contracts/eosio/kv_base.hpp reads what `to_hex` writes.
use taurus_cdt.Prelude.{
  ℕ, ◌*◌, ◌/◌, ◌%◌, ◌^◌, ◌<◌, ◌≡◌, refl, List, [], ◌∷◌, some, true, ◌==◌, ==_iff, all_below,
  all_below-at, All, arith, length,
}
use taurus_cdt.Kv.Hex.{hex_character, to_hex, hex_value, hex_byte, from_hex}

-- A byte through its two digits and back, for every byte.
through : ℕ → ℕ
unfolding hex_byte hex_value hex_character
through d = hex_byte (hex_value (hex_character (d / 2 ^ 4))) (hex_value (hex_character (d % 2 ^ 4)))

through_table : all_below 256 (λ d. through d == d) ≡ true
unfolding through
through_table = refl

through_eq : (d : ℕ) → d < 256 → through d ≡ d
through_eq d h = (==_iff _ d).0 (all_below-at 256 d (λ d. through d == d) through_table h)

-- Every key survives being printed in hex and read back.
pub from_hex-to_hex : (ds : List ℕ) → All (λ d. d < 2 ^ 8) ds → from_hex (to_hex ds) ≡ some ds
unfolding from_hex to_hex through
from_hex-to_hex [] h = refl
from_hex-to_hex (d ∷ ds) (h, hs) = rw (from_hex-to_hex ds hs, through_eq d h)

-- The text has two digits for each byte.
pub length-to_hex : (ds : List ℕ) → length (to_hex ds) ≡ 2 * length ds
unfolding to_hex
length-to_hex [] = omega arith
length-to_hex (d ∷ ds) = omega (arith, length-to_hex ds)
