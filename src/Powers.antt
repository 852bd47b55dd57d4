-- ===== src/Powers.antt =====
-- libraries/eosiolib/core/eosio/powers.hpp: powers of a base with a check against overflow.
pub mod Exact
mod Tests
use taurus_cdt.Prelude.{
  ℕ, zero, suc, ◌+◌, ◌*◌, ◌%◌, ◌^◌, List, [], ◌∷◌, ◌++◌, Bool, not, ltb, leb, if◌then◌else◌, Option,
  none, some, Result, ok, err, ◌>>=◌, ◌>>◌, check, get_elem?, length,
}

pub data Failure : Type 0 where
  base_too_small : Failure
  overflow : Failure

-- The type `T` is one of the unsigned integers, of `w` bits.
module _ (w : ℕ) where
  -- The loop of `detail::pow`, with `prior` the result so far.
  unfoldable pub pow_loop : ℕ → ℕ → ℕ → Result Failure ℕ
  pow_loop base zero prior = ok prior
  pow_loop base (suc n) prior =
      let result = prior * base % 2 ^ w in
      check (not (leb result prior)) overflow >> pow_loop base n result

  unfoldable pub pow : ℕ → ℕ → Result Failure ℕ
  unfolding pow_loop
  pow base exponent = check (not (leb base 1)) base_too_small >> pow_loop base exponent 1

  -- `largest_power_helper`, whose template argument `Value` has 64 bits. It is `none` where the
  -- templates do not end before `Exponent` leaves its 8 bits.
  unfoldable pub largest_power_helper : ℕ → ℕ → ℕ → ℕ → Option (ℕ × ℕ)
  largest_power_helper zero base exponent value = none
  largest_power_helper (suc fuel) base exponent value =
      let next = largest_power_helper fuel base (suc exponent) (value * base % 2 ^ 64 % 2 ^ w) in
      if ltb (value * base % 2 ^ 64) value then some (value, exponent) else next

  unfoldable pub largest_power : ℕ → Option (ℕ × ℕ)
  unfolding largest_power_helper
  largest_power base = largest_power_helper 255 base 0 1

  -- `generate_array`, from the index `i` on.
  unfoldable pub generate_from : ℕ → ℕ → (ℕ → Result Failure ℕ) → List (Result Failure ℕ)
  generate_from zero i g = []
  generate_from (suc n) i g = g i ∷ generate_from n (suc i) g

  -- The table. An entry that is an error stands for a table that does not compile.
  unfoldable pub powers_of_base : ℕ → Option (List (Result Failure ℕ))
  unfolding largest_power generate_from pow
  powers_of_base base = elim (largest_power base) [
    | none ↦ none
    | some (value, exponent) ↦ some (generate_from (suc exponent) 0 (pow base))
  ]

  unfoldable pub entry : Option (Result Failure ℕ) → Result Failure ℕ
  entry none = err overflow
  entry (some r) = r

  unfoldable pub look_up : Option (List (Result Failure ℕ)) → ℕ → Option (Result Failure ℕ)
  unfolding entry
  look_up none exponent = none
  look_up (some lookup_table) exponent = some (entry (get_elem? lookup_table exponent))

  -- The `pow` of a base that is a template argument. It is `none` where it does not compile.
  unfoldable pub pow_of : ℕ → ℕ → Option (Result Failure ℕ)
  unfolding powers_of_base look_up
  pow_of base exponent = look_up (powers_of_base base) exponent
