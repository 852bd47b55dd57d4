-- ===== src/Kv/ListFirst.antt =====
-- The best of the keys that pass a test is where a cursor of Kv/ListCursors.antt must stand. For the examples.
use taurus_cdt.Prelude.{
  ◌≡◌, ◌≢◌, ◌⊎◌, ◌↔◌, refl, sym, ap, ◌∙◌, subst, [], ◌∷◌, Option, none, some, Option-cases,
  Bool-cases, inl, inr, Bool, true, false, ◌&&◌, ◌==◌, &&_iff, ==_refl, ==_iff,
}
use taurus_cdt.Kv.Keys.{Bytes, full_key, bytes_eq, bytes_eq→eq}
use taurus_cdt.Kv.Cursors.{First, Under}
use taurus_cdt.Kv.ListHost.{Changes, lookup}
use taurus_cdt.Kv.ListCursors.{has_prefix, is_used, pick, best, candidate, status_of, list_cursors}

unfoldable In : Bytes → Changes → Type 0
In j [] = ⊥
In j ((k, v) ∷ l) = (k ≡ j) ⊎ In j l

used-In : (j : Bytes) (s : Changes) → is_used (lookup s j) ≡ true → In j s
unfolding In
used-In j [] e = cc
used-In j ((k, v) ∷ s) e = elim (Bool-cases (bytes_eq k j)) [
  | inl p ↦ inl (bytes_eq→eq k j p)
  | inr p ↦ inr (used-In j s (rw p at e))
]

pub clash : (p : Bool) → p ≡ true → p ≡ false → ⊥
clash p a b = cc

module _ (before : Bytes → Bytes → Bool) (same : (k : Bytes) → before k k ≡ true)
    (trans : (i j k : Bytes) → before i j ≡ true → before j k ≡ true → before i k ≡ true)
    (total : (j k : Bytes) → before j k ≡ false → before k j ≡ true) where
  abbrev Best : (Bytes → Bool) → Changes → Option Bytes → Type 0
  Best test l none = (j : Bytes) → In j l → test j ≡ true → ⊥
  Best test l (some c) =
      (test c ≡ true) × ((j : Bytes) → In j l → test j ≡ true → before c j ≡ true)

  Best-pick :
      (test : Bytes → Bool) (l : Changes) (k : Bytes) (v : Option Bytes) (o : Option Bytes)
      → test k ≡ true
      → Best test l o
      → Best test ((k, v) ∷ l) (some (pick before k o))
  unfolding In
  Best-pick test l k v none e h = (
    e,
    λ j i t. elim i [
      | inl q ↦ subst (λ j. before k j ≡ true) q (same k)
      | inr m ↦ absurd (h j m t)
    ],
  )
  Best-pick test l k v (some c) e (p, h) = elim (Bool-cases (before k c)) [
    | inl q ↦ rw q (
      e,
      λ j i t. elim i [
        | inl w ↦ subst (λ j. before k j ≡ true) w (same k)
        | inr m ↦ trans k c j q (h j m t)
      ],
    )
    | inr q ↦ rw q (
      p,
      λ j i t. elim i [ inl w ↦ subst (λ j. before c j ≡ true) w (total k c q) | inr m ↦ h j m t ],
    )
  ]

  Best-skip :
      (test : Bytes → Bool) (l : Changes) (k : Bytes) (v : Option Bytes) (o : Option Bytes)
      → test k ≡ false
      → Best test l o
      → Best test ((k, v) ∷ l) o
  unfolding In
  Best-skip test l k v none e h =
      λ j i t. elim i [ inl q ↦ clash (test j) t (sym (ap test q) ∙ e) | inr m ↦ h j m t ]
  Best-skip test l k v (some c) e (p, h) = (
    p,
    λ j i t. elim i [ inl q ↦ absurd (clash (test j) t (sym (ap test q) ∙ e)) | inr m ↦ h j m t ],
  )

  best-Best : (test : Bytes → Bool) (l : Changes) → Best test l (best before test l)
  unfolding In
  best-Best test [] = λ j i t. i
  best-Best test ((k, v) ∷ l) = elim (Bool-cases (test k)) [
    | inl p ↦ rw p (Best-pick test l k v (best before test l) p (best-Best test l))
    | inr p ↦ rw p (Best-skip test l k v (best before test l) p (best-Best test l))
  ]

has_prefix-full_key : (p r : Bytes) → has_prefix p (full_key p r) ≡ true
unfolding full_key
has_prefix-full_key [] r = refl
has_prefix-full_key (x ∷ p) r = rw (==_refl x) (has_prefix-full_key p r)

used_some : (o : Option Bytes) → o ≢ none → is_used o ≡ true
used_some none n = absurd (n refl)
used_some (some b) n = refl

used_not : (o : Option Bytes) → is_used o ≡ true → o ≢ none
used_not none u = cc
used_not (some b) u = λ e. cc

In-candidate :
    (s : Changes) (p r : Bytes)
    → lookup s (full_key p r) ≢ none
    → In (full_key p r) s × (candidate s p (full_key p r) ≡ true)
In-candidate s p r n =
    let u = used_some (lookup s (full_key p r)) n in
    (used-In (full_key p r) s u, rw (has_prefix-full_key p r, u) refl)

has_prefix-Under : (p k : Bytes) → has_prefix p k ≡ true → Under p k
unfolding full_key
has_prefix-Under [] k e = (k, refl)
has_prefix-Under (x ∷ p) [] e = cc
has_prefix-Under (x ∷ p) (y ∷ k) e =
    let (q, t) = (&&_iff (x == y) (has_prefix p k)).0 e in
    let (r, w) = has_prefix-Under p k t in let z : x ≡ y = (==_iff x y).0 q in (r, cc)

clash_some : (o : Option Bytes) (b : Bytes) → o ≡ none → o ≡ some b → ⊥
clash_some o b p q = cc

-- The best candidate that passes a test of a range is the first of the range.
module _ (before : Bytes → Bytes → Bool) (same : (k : Bytes) → before k k ≡ true)
    (trans : (i j k : Bytes) → before i j ≡ true → before j k ≡ true → before i k ≡ true)
    (total : (j k : Bytes) → before j k ≡ false → before k j ≡ true) (test : Bytes → Bool)
    (Range : Bytes → Type 0) (means : (j : Bytes) → (test j ≡ true) ↔ Range j) (s : Changes)
    (p : Bytes) where
  abbrev pub chosen : Option Bytes
  chosen = best before (λ j. candidate s p j && test j) s

  first_of :
      (o : Option Bytes)
      → Best before same trans total (λ j. candidate s p j && test j) s o
      → First list_cursors s p (λ j k. before j k ≡ true) Range (status_of o) o
  first_of none h = (
    refl,
    λ r l. elim (Option-cases (lookup s (full_key p r))) [
      | inl n ↦ n
      | inr (b, n) ↦
          (let (i, t) = In-candidate s p r (λ e. clash_some (lookup s (full_key p r)) b e n) in
            absurd (h (full_key p r) i ((&&_iff _ _).1 (t, (means (full_key p r)).1 l))))
    ],
  )
  first_of (some c) (t, h) =
      let (a, l) = (&&_iff (candidate s p c) (test c)).0 t in
      let (b, u) = (&&_iff (has_prefix p c) (is_used (lookup s c))).0 a in
      (
        refl,
        used_not (lookup s c) u,
        (means c).0 l,
        has_prefix-Under p c b,
        λ r m n.
            let (i, w) = In-candidate s p r n in
            h (full_key p r) i ((&&_iff _ _).1 (w, (means (full_key p r)).1 m)),
      )

  pub best-First : First list_cursors s p (λ j k. before j k ≡ true) Range (status_of chosen) chosen
  best-First =
      first_of chosen (best-Best before same trans total (λ j. candidate s p j && test j) s)
