-- ===== src/Map/ByteOrder.antt =====
-- The order of byte strings of one length, for the keys of libraries/eosiolib/contracts/eosio/map.hpp.
use taurus_cdt.Prelude.{
  ℕ, ◌+◌, ◌<◌, ◌≡◌, ◌≢◌, ◌↔◌, refl, sym, ap, ◌∙◌, subst, [], ◌∷◌, ◌++◌, Bool-cases, inl, inr, Bool,
  true, false, ◌==◌, ltb, ==_iff, ==_refl, ne→==-false, lt→ltb, le→ltb-false, ltb→lt, length, arith,
}
use taurus_cdt.Kv.Keys.{Bytes}
use taurus_cdt.Kv.ListHost.{bytes_leb}

pub cons_leb : (x y : ℕ) (xs ys : Bytes) → x < y → bytes_leb (x ∷ xs) (y ∷ ys) ≡ true
cons_leb x y xs ys h = rw (lt→ltb x y h) refl

pub cons_same : (x : ℕ) (xs ys : Bytes) → bytes_leb (x ∷ xs) (x ∷ ys) ≡ bytes_leb xs ys
cons_same x xs ys = rw (le→ltb-false x x (omega arith), ==_refl x) refl

pub cons_greater : (x y : ℕ) (xs ys : Bytes) → y < x → bytes_leb (x ∷ xs) (y ∷ ys) ≡ false
cons_greater x y xs ys h =
    rw (le→ltb-false x y (omega (arith, h)), ne→==-false x y (λ e. omega (arith, h, e))) refl

data Order (x y : ℕ) : Type 0 where
  less : x < y → Order x y
  equal : x ≡ y → Order x y
  greater : y < x → Order x y

order : (x y : ℕ) → Order x y
order x y = elim (Bool-cases (ltb x y)) [
  | inl p ↦ less (ltb→lt x y p)
  | inr p ↦ elim (Bool-cases (x == y)) [
    | inl q ↦ equal ((==_iff x y).0 q)
    | inr q ↦ greater (ground (arith, p, q))
  ]
]

no_true : (p : Bool) → p ≡ false → p ≡ true → ⊥
no_true p e f = cc

-- To show that a key is the next one: both hold, or neither does.
both :
    (p q : Bool) (k j : Bytes) → p ≡ true → q ≡ true → k ≢ j → (p ≡ true) ↔ ((q ≡ true) × (k ≢ j))
both p q k j e f n = (λ u. (f, n), λ u. e)

neither :
    (p q : Bool) (k j : Bytes)
    → p ≡ false
    → (q ≡ true → k ≢ j → ⊥)
    → (p ≡ true) ↔ ((q ≡ true) × (k ≢ j))
neither p q k j e f = (λ u. absurd (no_true p e u), λ (u, n). absurd (f u n))

head_apart : (x y : ℕ) (xs ys : Bytes) → x ≢ y → (x ∷ xs) ≢ (y ∷ ys)
head_apart x y xs ys n e = let p : x ≡ y = cc in n p

last_leb : (b y : ℕ) → b < y → bytes_leb ((b + 1) ∷ []) (y ∷ []) ≡ true
last_leb b y h = elim (order (b + 1) y) [
  | less l ↦ cons_leb (b + 1) y [] [] l
  | equal e ↦ subst (λ z. bytes_leb ((b + 1) ∷ []) (z ∷ []) ≡ true) e (cons_same (b + 1) [] [])
  | greater g ↦ absurd (omega (arith, h, g))
]

last_iff :
    (b y : ℕ)
    → (bytes_leb ((b + 1) ∷ []) (y ∷ []) ≡ true)
      ↔ ((bytes_leb (b ∷ []) (y ∷ []) ≡ true) × ((b ∷ []) ≢ (y ∷ [])))
last_iff b y = elim (order b y) [
  | less h ↦
      both _ _ _ _ (last_leb b y h) (cons_leb b y [] [] h)
        (head_apart b y [] [] (λ e. omega (arith, h, e)))
  | equal h ↦
      neither _ _ _ _ (cons_greater (b + 1) y [] [] (omega (arith, h)))
        (λ u n. n (ap (λ z. z ∷ []) h))
  | greater h ↦
      neither _ _ _ _ (cons_greater (b + 1) y [] [] (omega (arith, h)))
        (λ u n. no_true _ (cons_greater b y [] [] h) u)
]

-- The comparison of longer keys is that of their rests where they begin alike.
same_head :
    (x : ℕ) (k' k j : Bytes)
    → (bytes_leb k' j ≡ true) ↔ ((bytes_leb k j ≡ true) × (k ≢ j))
    → (bytes_leb (x ∷ k') (x ∷ j) ≡ true)
      ↔ ((bytes_leb (x ∷ k) (x ∷ j) ≡ true) × ((x ∷ k) ≢ (x ∷ j)))
same_head x k' k j h = (
  λ e.
      let (a, n) = h.0 (sym (cons_same x k' j) ∙ e) in
      (cons_same x k j ∙ a, λ q. n (let r : k ≡ j = cc in r)),
  λ (a, n). cons_same x k' j ∙ h.1 (sym (cons_same x k j) ∙ a, λ q. n (ap (λ z. x ∷ z) q)),
)

-- Among the keys of its length, the incremented key is the next one.
pub next_iff :
    (xs : Bytes) (b : ℕ) (j : Bytes)
    → length j ≡ length (xs ++ b ∷ [])
    → (bytes_leb (xs ++ (b + 1) ∷ []) j ≡ true)
      ↔ ((bytes_leb (xs ++ b ∷ []) j ≡ true) × ((xs ++ b ∷ []) ≢ j))
next_iff [] b [] h = absurd (omega (arith, h))
next_iff [] b (y ∷ []) h = last_iff b y
next_iff [] b (y ∷ z ∷ j) h = absurd (omega (arith, h))
next_iff (x ∷ xs) b [] h = absurd (omega (arith, h))
next_iff (x ∷ xs) b (y ∷ j) h =
    let rest = next_iff xs b j (omega (arith, h)) in
    elim (order x y) [
      | less l ↦
          both _ _ _ _ (cons_leb x y (xs ++ (b + 1) ∷ []) j l) (cons_leb x y (xs ++ b ∷ []) j l)
            (head_apart x y _ j (λ e. omega (arith, l, e)))
      | equal e ↦
          subst
            (λ z.
              (bytes_leb (x ∷ xs ++ (b + 1) ∷ []) (z ∷ j) ≡ true)
              ↔ ((bytes_leb (x ∷ xs ++ b ∷ []) (z ∷ j) ≡ true) × ((x ∷ xs ++ b ∷ []) ≢ (z ∷ j))))
            e (same_head x (xs ++ (b + 1) ∷ []) (xs ++ b ∷ []) j rest)
      | greater g ↦
          neither _ _ _ _ (cons_greater x y (xs ++ (b + 1) ∷ []) j g)
            (λ u n. no_true _ (cons_greater x y (xs ++ b ∷ []) j g) u)
    ]

pub one_leb :
    (xs : Bytes) (a b : ℕ) → bytes_leb (xs ++ a ∷ []) (xs ++ b ∷ []) ≡ bytes_leb (a ∷ []) (b ∷ [])
one_leb [] a b = refl
one_leb (x ∷ xs) a b = cons_same x (xs ++ a ∷ []) (xs ++ b ∷ []) ∙ one_leb xs a b

pub two_leb :
    (xs : Bytes) (a b c d : ℕ)
    → bytes_leb ((xs ++ a ∷ []) ++ b ∷ []) ((xs ++ c ∷ []) ++ d ∷ [])
      ≡ bytes_leb (a ∷ b ∷ []) (c ∷ d ∷ [])
two_leb [] a b c d = refl
two_leb (x ∷ xs) a b c d =
    cons_same x ((xs ++ a ∷ []) ++ b ∷ []) ((xs ++ c ∷ []) ++ d ∷ []) ∙ two_leb xs a b c d
