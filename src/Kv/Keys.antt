-- ===== src/Kv/Keys.antt =====
-- `key_type` of contracts/eosio/kv_base.hpp: a key is its bytes, and keys are joined by `+`.
use taurus_cdt.Prelude.{
  ℕ, ◌≡◌, refl, ◌↔◌, List, [], ◌∷◌, ◌++◌, Bool, true, false, ◌&&◌, ◌==◌, arith, length,
}

abbrev pub Bytes : Type 0
Bytes = List ℕ

-- `partial_key` and `full_key` are byte strings too: `full_key( a, b )` is the bytes of both.
unfoldable pub full_key : Bytes → Bytes → Bytes
full_key a b = a ++ b

-- Equality of byte strings: a `memcmp` over strings of one length.
unfoldable pub bytes_eq : Bytes → Bytes → Bool
bytes_eq [] [] = true
bytes_eq [] (y ∷ ys) = false
bytes_eq (x ∷ xs) [] = false
bytes_eq (x ∷ xs) (y ∷ ys) = x == y && bytes_eq xs ys

pub bytes_eq→eq : (xs ys : Bytes) → bytes_eq xs ys ≡ true → xs ≡ ys
unfolding bytes_eq
bytes_eq→eq [] [] h = refl
bytes_eq→eq [] (y ∷ ys) h = cc
bytes_eq→eq (x ∷ xs) [] h = cc
bytes_eq→eq (x ∷ xs) (y ∷ ys) h = ground (arith, bytes_eq→eq xs ys)

pub bytes_eq_refl : (xs : Bytes) → bytes_eq xs xs ≡ true
unfolding bytes_eq
bytes_eq_refl [] = refl
bytes_eq_refl (x ∷ xs) = ground (arith, bytes_eq_refl xs)

pub bytes_eq_iff : (xs ys : Bytes) → (bytes_eq xs ys ≡ true) ↔ (xs ≡ ys)
bytes_eq_iff xs ys = (bytes_eq→eq xs ys, λ e. rw e (bytes_eq_refl ys))

-- Keys under prefixes of one length are equal only if both parts are.
pub full_key-injective :
    (p q k l : Bytes) → length p ≡ length q → full_key p k ≡ full_key q l → (p ≡ q) × (k ≡ l)
unfolding full_key
full_key-injective [] [] k l n e = (refl, e)
full_key-injective [] (y ∷ q) k l n e = absurd (omega arith)
full_key-injective (x ∷ p) [] k l n e = absurd (omega arith)
full_key-injective (x ∷ p) (y ∷ q) k l n e =
    let t : full_key p k ≡ full_key q l = cc in
    let h : x ≡ y = cc in let (a, b) = full_key-injective p q k l (omega arith) t in (cc, b)
