-- ===== src/Abi/Json.antt =====
-- What tools/include/eosio/abimerge.hpp uses of the library jsoncons, for a value of type `ojson`.
use taurus_cdt.Prelude.{ℕ, ◌≡◌, ◌↔◌, List, Bool, true}
use Prim.Native.String.{String}

pub record Ojson : Type 1 where
  pub Json : Type 0
  -- `==`
  pub eqb : Json → Json → Bool
  pub eqb_iff : (a b : Json) → (eqb a b ≡ true) ↔ (a ≡ b)
  -- `a[key]`
  pub at : Json → String → Json
  -- `array_range()` and `size()`
  pub array_range : Json → List Json
  pub size : Json → ℕ
  -- `get_with_default( key, array )` and the one with an empty object
  pub array_at : Json → String → Json
  pub object_at : Json → String → Json
  -- `object_range()`: the keys with their values
  pub object_range : Json → List (String × Json)
  pub empty_object : Json
  pub insert_or_assign : Json → String → Json → Json
  -- A `double`, the number 12, and `<` and `>=`
  pub Double : Type 0
  pub twelve : Double
  pub less_than : Double → Double → Bool
  pub at_least : Double → Double → Bool
  -- `std::stod( vers.substr( vers.size() - 3 ) ) * 10`
  pub version_number : Json → Double
