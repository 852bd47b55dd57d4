-- ===== src/Kv/ListHost.antt =====
-- A database as a list of changes, and its cursors in the lexicographic order of keys. For the examples.
use taurus_cdt.Prelude.{
  ℕ, ◌≡◌, ◌⊎◌, refl, sym, subst, List, [], ◌∷◌, Option, none, some, Bool-cases, inl, inr, Bool,
  true, false, ◌&&◌, ◌==◌, ltb, if◌then◌else◌, &&_iff, ==_iff, ==_refl, ltb→lt, ltb-false→le,
  lt→ltb, le→ltb-false, arith,
}
use taurus_cdt.Kv.Keys.{Bytes, bytes_eq}
use taurus_cdt.Kv.Host.{KvHost}

abbrev pub Changes : Type 0
Changes = List (Bytes × Option Bytes)

abbrev pub lookup : Changes → Bytes → Option Bytes
lookup [] j = none
lookup ((k, v) ∷ s) j = if bytes_eq k j then v else lookup s j

abbrev pub list_host : KvHost
list_host = record {
  Store = Changes;
  kv_get = lookup;
  kv_set = λ s k v. (k, some v) ∷ s;
  kv_erase = λ s k. (k, none) ∷ s;
  get-set = λ s k v j. refl;
  get-erase = λ s k j. refl;
}

abbrev pub bytes_leb : Bytes → Bytes → Bool
bytes_leb [] ys = true
bytes_leb (x ∷ xs) [] = false
bytes_leb (x ∷ xs) (y ∷ ys) =
    let rest = bytes_leb xs ys in if ltb x y then true else (x == y && rest)

leb_cons :
    (x y : ℕ) (xs ys : Bytes)
    → bytes_leb (x ∷ xs) (y ∷ ys) ≡ true
    → (ltb x y ≡ true) ⊎ ((x ≡ y) × (bytes_leb xs ys ≡ true))
leb_cons x y xs ys e = elim (Bool-cases (ltb x y)) [
  | inl p ↦ inl p
  | inr p ↦
      (let e' : (x == y && bytes_leb xs ys) ≡ true = rw p at e in
        let (q, r) = (&&_iff (x == y) (bytes_leb xs ys)).0 e' in inr ((==_iff x y).0 q, r))
]

leb_same : (x : ℕ) (xs ys : Bytes) → bytes_leb xs ys ≡ true → bytes_leb (x ∷ xs) (x ∷ ys) ≡ true
leb_same x xs ys e = rw (le→ltb-false x x (omega arith), ==_refl x) e

pub leb_refl : (k : Bytes) → bytes_leb k k ≡ true
leb_refl [] = refl
leb_refl (x ∷ xs) = leb_same x xs xs (leb_refl xs)

pub leb_antisym : (j k : Bytes) → bytes_leb j k ≡ true → bytes_leb k j ≡ true → j ≡ k
leb_antisym [] [] p q = refl
leb_antisym [] (y ∷ ys) p q = cc
leb_antisym (x ∷ xs) [] p q = cc
leb_antisym (x ∷ xs) (y ∷ ys) p q = elim (leb_cons x y xs ys p) [
  | inl l ↦ elim (leb_cons y x ys xs q) [
    | inl m ↦ absurd (omega (arith, ltb→lt x y l, ltb→lt y x m))
    | inr (e, m) ↦ absurd (omega (arith, ltb→lt x y l, e))
  ]
  | inr (e, l) ↦ elim (leb_cons y x ys xs q) [
    | inl m ↦ absurd (omega (arith, ltb→lt y x m, e))
    | inr (e', m) ↦ (let t = leb_antisym xs ys l m in cc)
  ]
]

pub leb_trans : (i j k : Bytes) → bytes_leb i j ≡ true → bytes_leb j k ≡ true → bytes_leb i k ≡ true
leb_trans [] j k p q = refl
leb_trans (x ∷ xs) [] k p q = cc
leb_trans (x ∷ xs) (y ∷ ys) [] p q = cc
leb_trans (x ∷ xs) (y ∷ ys) (z ∷ zs) p q = elim (leb_cons x y xs ys p) [
  | inl l ↦ elim (leb_cons y z ys zs q) [
    | inl m ↦ rw (lt→ltb x z (omega (arith, ltb→lt x y l, ltb→lt y z m))) refl
    | inr (e, m) ↦ rw (lt→ltb x z (omega (arith, ltb→lt x y l, e))) refl
  ]
  | inr (e, l) ↦ elim (leb_cons y z ys zs q) [
    | inl m ↦ rw (lt→ltb x z (omega (arith, ltb→lt y z m, e))) refl
    | inr (e', m) ↦
        (let w : x ≡ z = cc in
          subst (λ z. bytes_leb (x ∷ xs) (z ∷ zs) ≡ true) w
            (leb_same x xs zs (leb_trans xs ys zs l m)))
  ]
]

pub leb_total : (j k : Bytes) → bytes_leb j k ≡ false → bytes_leb k j ≡ true
leb_total [] k p = cc
leb_total (x ∷ xs) [] p = refl
leb_total (x ∷ xs) (y ∷ ys) p = elim (Bool-cases (ltb x y)) [
  | inl l ↦ (let u : true ≡ false = rw l at p in cc)
  | inr l ↦ elim (Bool-cases (ltb y x)) [
    | inl m ↦ rw m refl
    | inr m ↦
        (let e : x ≡ y = omega (arith, ltb-false→le x y l, ltb-false→le y x m) in
          let p' : bytes_leb (y ∷ xs) (y ∷ ys) ≡ false =
            subst (λ z. bytes_leb (z ∷ xs) (y ∷ ys) ≡ false) e p in
          let p'' : bytes_leb xs ys ≡ false =
            rw (le→ltb-false y y (omega arith), ==_refl y) at p' in
          subst (λ z. bytes_leb (y ∷ ys) (z ∷ xs) ≡ true) (sym e)
            (leb_same y ys xs (leb_total xs ys p'')))
  ]
]
