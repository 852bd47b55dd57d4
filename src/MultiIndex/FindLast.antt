-- ===== src/MultiIndex/FindLast.antt =====
-- `std::find_if` from the end of `_items_vector`, of libraries/eosiolib/contracts/eosio/multi_index.hpp.
use taurus_cdt.Prelude.{
  ◌≡◌, refl, ◌∙◌, subst, List, [], ◌∷◌, ◌++◌, Bool, true, false, none, some, All, Option-cases,
  Bool-cases, inl, inr,
}
use taurus_cdt.MultiIndex.{find_last}

at-Some {ℓ κ} : {A : Type ℓ} (P : A → Type κ) (x y : A) → some x ≡ some y → P x → P y
at-Some P x y e h = let q : x ≡ y = cc in subst P q h

-- What holds of all elements holds of the one that is found, and it passes the test.
pub find_last-All {ℓ κ} :
    {A : Type ℓ} (P : A → Type κ) (p : A → Bool) (xs : List A) (y : A)
    → find_last p xs ≡ some y
    → All P xs
    → P y × (p y ≡ true)
unfolding find_last
find_last-All P p [] y e h = cc
find_last-All P p (x ∷ xs) y e h = elim (Option-cases (find_last p xs)) [
  | inr (z, q) ↦ (let e' : some z ≡ some y = rw q at e in find_last-All P p xs y (q ∙ e') h.1)
  | inl q ↦ elim (Bool-cases (p x)) [
    | inl r ↦
        (let e' : some x ≡ some y = rw (q, r) at e in
          at-Some (λ z. P z × (p z ≡ true)) x y e' (h.0, r))
    | inr r ↦ (let e' : none ≡ some y = rw (q, r) at e in cc)
  ]
]

pub find_last-agree {ℓ} :
    {A : Type ℓ} (p q : A → Bool) (xs : List A)
    → All (λ x. p x ≡ q x) xs
    → find_last p xs ≡ find_last q xs
unfolding find_last
find_last-agree p q [] h = refl
find_last-agree p q (x ∷ xs) h =
    let e = find_last-agree p q xs h.1 in
    elim (Option-cases (find_last q xs)) [
      | inl n ↦ rw (e, n, h.0) refl
      | inr (y, n) ↦ rw (e, n) refl
    ]

pub find_last-push {ℓ} :
    {A : Type ℓ} (p : A → Bool) (xs : List A) (y : A)
    → p y ≡ true
    → find_last p (xs ++ y ∷ []) ≡ some y
unfolding find_last
find_last-push p [] y h = rw h refl
find_last-push p (x ∷ xs) y h = rw (find_last-push p xs y h) refl

pub find_last-miss {ℓ} :
    {A : Type ℓ} (p : A → Bool) (xs : List A) (y : A)
    → p y ≡ false
    → find_last p xs ≡ none
    → find_last p (xs ++ y ∷ []) ≡ none
unfolding find_last
find_last-miss p [] y h e = rw h refl
find_last-miss p (x ∷ xs) y h e = elim (Option-cases (find_last p xs)) [
  | inr (w, q) ↦ (let e' : some w ≡ none = rw q at e in cc)
  | inl q ↦ rw (find_last-miss p xs y h q) (rw q at e)
]

pub find_last-append {ℓ} :
    {A : Type ℓ} (p : A → Bool) (xs : List A) (y z : A)
    → p y ≡ false
    → find_last p xs ≡ some z
    → find_last p (xs ++ y ∷ []) ≡ some z
unfolding find_last
find_last-append p [] y z h e = cc
find_last-append p (x ∷ xs) y z h e = elim (Option-cases (find_last p xs)) [
  | inr (w, q) ↦ (let e' : some w ≡ some z = rw q at e in rw (find_last-append p xs y w h q) e')
  | inl q ↦ rw (find_last-miss p xs y h q) (rw q at e)
]

pub find_last-none {ℓ} :
    {A : Type ℓ} (p : A → Bool) (xs : List A) → find_last p xs ≡ none → All (λ x. p x ≡ false) xs
unfolding find_last
find_last-none p [] e = tt
find_last-none p (x ∷ xs) e = elim (Option-cases (find_last p xs)) [
  | inr (z, q) ↦ (let e' : some z ≡ none = rw q at e in cc)
  | inl q ↦ elim (Bool-cases (p x)) [
    | inl r ↦ (let e' : some x ≡ none = rw (q, r) at e in cc)
    | inr r ↦ (r, find_last-none p xs q)
  ]
]

pub All-map {ℓ κ μ} :
    {A : Type ℓ} (P : A → Type κ) (Q : A → Type μ) (xs : List A)
    → ((x : A) → P x → Q x)
    → All P xs
    → All Q xs
All-map P Q [] f h = tt
All-map P Q (x ∷ xs) f h = (f x h.0, All-map P Q xs f h.1)
