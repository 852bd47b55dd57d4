-- ===== src/Powers/Exact.antt =====
-- What the functions of libraries/eosiolib/core/eosio/powers.hpp return: the power where it fits, and
-- where it does not.
use taurus_cdt.Prelude.{
  ℕ, zero, suc, ◌+◌, ◌*◌, ◌%◌, ◌^◌, ◌<◌, ◌≤◌, ◌≡◌, ◌≢◌, refl, sym, ap, ◌∙◌, subst, List, false, leb,
  if◌then◌else◌, Option, none, some, Result, ok, err, get_elem?, Bool-cases, inl, inr, arith,
}
use native.Mathlib.Nat.{
  mul_assoc, pow-zero, mod-eq_of_lt, mod-lt, mul-le-mul_left, le-mul_of_pos_right, one-le-pow,
  pow-succ', pow-suc, pow-le-pow_right,
}
use taurus_cdt.Powers.{
  Failure, overflow, pow_loop, pow, generate_from, powers_of_base, entry, look_up, pow_of,
}

lt→leb-false : (a b : ℕ) → b < a → leb a b ≡ false
lt→leb-false a b h = ground arith

pow_loop-step :
    (w base n prior : ℕ)
    → prior < prior * base % 2 ^ w
    → pow_loop w base (suc n) prior ≡ pow_loop w base n (prior * base % 2 ^ w)
unfolding pow_loop
pow_loop-step w base n prior h = rw (lt→leb-false (prior * base % 2 ^ w) prior h) refl

grows : (prior base : ℕ) → 2 ≤ base → 1 ≤ prior → prior < prior * base
grows prior base b p = let h = mul-le-mul_left prior b in omega (arith, h, p)

power-shift : (prior base n : ℕ) → prior * base ^ suc n ≡ prior * base * base ^ n
power-shift prior base n = rw (pow-succ' base n) (sym (mul_assoc prior base (base ^ n)))

power-zero : (prior base : ℕ) → prior * base ^ 0 ≡ prior
power-zero prior base = rw (pow-zero base) (omega arith)

power_fits :
    (base n prior bound : ℕ) → 2 ≤ base → prior * base ^ suc n < bound → prior * base < bound
power_fits base n prior bound b h =
    let q = le-mul_of_pos_right (prior * base) (one-le-pow n base (omega (arith, b))) in
    let e = power-shift prior base n in omega (arith, h, q, e)

suc-add : (n m : ℕ) → suc n + m ≡ suc (n + m)
suc-add n m = omega arith

zero-add : (m : ℕ) → 0 + m ≡ m
zero-add m = omega arith

add-zero : (n : ℕ) → n ≡ n + 0
add-zero n = omega arith

add-one : (n : ℕ) → suc n ≡ n + 1
add-one n = omega arith

-- The first rounds of the loop, while the power fits.
pow_loop-add :
    (w base n m prior : ℕ)
    → 2 ≤ base
    → 1 ≤ prior
    → prior * base ^ n < 2 ^ w
    → pow_loop w base (n + m) prior ≡ pow_loop w base m (prior * base ^ n)
pow_loop-add w base zero m prior b p h =
    ap (λ k. pow_loop w base k prior) (zero-add m)
    ∙ ap (pow_loop w base m) (sym (power-zero prior base))
pow_loop-add w base (suc n) m prior b p h =
    let f = power_fits base n prior (2 ^ w) b h in
    let r = mod-eq_of_lt f in
    let g = grows prior base b p in
    let e = power-shift prior base n in
    ap (λ k. pow_loop w base k prior) (suc-add n m)
    ∙ pow_loop-step w base (n + m) prior (rw r g)
    ∙ ap (pow_loop w base (n + m)) r
    ∙ pow_loop-add w base n m (prior * base) b (omega (arith, p, g)) (subst (λ x. x < 2 ^ w) e h)
    ∙ ap (pow_loop w base m) (sym e)

pow_loop-exact : (w base n : ℕ) → 2 ≤ base → base ^ n < 2 ^ w → pow_loop w base n 1 ≡ ok (base ^ n)
unfolding pow_loop
pow_loop-exact w base n b h =
    let one : 1 * base ^ n ≡ base ^ n = omega arith in
    ap (λ k. pow_loop w base k 1) (add-zero n)
    ∙ pow_loop-add w base n 0 1 b (omega arith) (rw one h)
    ∙ ap ok one

pow-loop : (w base n : ℕ) → 2 ≤ base → pow w base n ≡ pow_loop w base n 1
unfolding pow
pow-loop w base n b = rw (lt→leb-false base 1 b) refl

-- For a base of at least 2, a power that fits into the `w` bits of the type is what `detail::pow`
-- returns.
pub pow-exact : (w base e : ℕ) → 2 ≤ base → base ^ e < 2 ^ w → pow w base e ≡ ok (base ^ e)
pow-exact w base e b h = pow-loop w base e b ∙ pow_loop-exact w base e b h

-- For a base of at least 2, the first power that does not fit into `w` bits is returned with its high
-- bits cut off, and no failure is raised, where what is left of it exceeds the power before it.
pub pow_wraps :
    (w base e : ℕ)
    → 2 ≤ base
    → base ^ e < 2 ^ w
    → 2 ^ w ≤ base ^ suc e
    → base ^ e < base ^ suc e % 2 ^ w
    → (pow w base (suc e) ≡ ok (base ^ suc e % 2 ^ w)) × (base ^ suc e % 2 ^ w ≢ base ^ suc e)
unfolding pow_loop
pow_wraps w base e b h o g =
    let one : 1 * base ^ e ≡ base ^ e = omega arith in
    let s = pow-suc base e in
    (
      pow-loop w base (suc e) b
          ∙ ap (λ k. pow_loop w base k 1) (add-one e)
          ∙ pow_loop-add w base e 1 1 b (omega arith) (rw one h)
          ∙ ap (pow_loop w base 1) one
          ∙ pow_loop-step w base 0 (base ^ e) (subst (λ x. base ^ e < x % 2 ^ w) s g)
          ∙ ap (λ x. ok (x % 2 ^ w)) (sym s),
      λ q. (let l = mod-lt (base ^ suc e) (one-le-pow w 2 (omega arith)) in omega (arith, l, q, o)),
    )

get_elem?-generate_from :
    (n i e : ℕ) (g : ℕ → Result Failure ℕ)
    → e < n
    → get_elem? (generate_from 64 n i g) e ≡ some (g (i + e))
unfolding generate_from
get_elem?-generate_from zero i e g h = absurd (omega (arith, h))
get_elem?-generate_from (suc n) i zero g h = ap (λ k. some (g k)) (add-zero i)
get_elem?-generate_from (suc n) i (suc e) g h =
    get_elem?-generate_from n (suc i) e g (omega (arith, h)) ∙ ap (λ k. some (g k)) (omega arith)

get_elem?-generate_from_end :
    (n i e : ℕ) (g : ℕ → Result Failure ℕ) → n ≤ e → get_elem? (generate_from 64 n i g) e ≡ none
unfolding generate_from
get_elem?-generate_from_end zero i e g h = refl
get_elem?-generate_from_end (suc n) i zero g h = absurd (omega (arith, h))
get_elem?-generate_from_end (suc n) i (suc e) g h =
    get_elem?-generate_from_end n (suc i) e g (omega (arith, h))

table_of_ten : powers_of_base 64 10 ≡ some (generate_from 64 20 0 (pow 64 10))
unfolding powers_of_base
table_of_ten = refl

pow_of-table :
    (w base e : ℕ) (t : List (Result Failure ℕ)) (o : Option (Result Failure ℕ))
    → powers_of_base w base ≡ some t
    → get_elem? t e ≡ o
    → pow_of w base e ≡ some (entry w o)
unfolding pow_of look_up
pow_of-table w base e t o h g = ap (λ x. look_up w x e) h ∙ ap (λ x. some (entry w x)) g

-- `pow< 10 >` compiles, and for each exponent it returns the power of ten where that fits into 64 bits,
-- which is up to 19, and fails with an overflow for every larger one.
pub pow_of_ten : (e : ℕ) → pow_of 64 10 e ≡ some (if leb e 19 then ok (10 ^ e) else err overflow)
unfolding entry
pow_of_ten e = elim (Bool-cases (leb e 19)) [
  | inl p ↦
      (let t = get_elem?-generate_from 20 0 e (pow 64 10) (ground arith) in
        let b : 10 ^ e < 2 ^ 64 =
          omega (arith, pow-le-pow_right {n = 10} (omega arith) {i = e} {j = 19} (ground arith)) in
        rw p (
          pow_of-table 64 10 e (generate_from 64 20 0 (pow 64 10)) (some (pow 64 10 (0 + e)))
            table_of_ten t
          ∙ ap (λ k. some (pow 64 10 k)) (zero-add e)
          ∙ ap some (pow-exact 64 10 e (omega arith) b)))
  | inr p ↦ rw p (
      pow_of-table 64 10 e (generate_from 64 20 0 (pow 64 10)) none table_of_ten
        (get_elem?-generate_from_end 20 0 e (pow 64 10) (ground arith)))
]
