-- ===== src/Kv/ListLaws.antt =====
-- The laws of cursors for a database that is a list of changes. For the examples.
use taurus_cdt.Prelude.{
  ◌≡◌, ◌≢◌, ◌⊎◌, ◌↔◌, refl, sym, ap, subst, Option, none, some, Bool-cases, inl, inr, Bool, true,
  false, not, if◌then◌else◌, &&_iff,
}
use taurus_cdt.Kv.Keys.{Bytes, bytes_eq, bytes_eq→eq, bytes_eq_refl}
use taurus_cdt.Kv.Cursors.{negative, equal, positive, CursorLaws}
use taurus_cdt.Kv.ListHost.{bytes_leb, leb_refl, leb_antisym, leb_trans, leb_total}
use taurus_cdt.Kv.ListCursors.{key_sign, cursor_sign, after, ahead, list_cursors}
use taurus_cdt.Kv.ListFirst.{clash, best-First}

equal_apart : equal ≡ negative → ⊥
equal_apart e = cc

positive_apart : positive ≡ negative → ⊥
positive_apart e = cc

sign_apart : (b : Bool) → (if b then negative else positive) ≡ equal → ⊥
sign_apart true e = cc
sign_apart false e = cc

key_sign_iff : (o : Option Bytes) (k : Bytes) → (key_sign o k ≡ equal) ↔ (o ≡ some k)
key_sign_iff none k = (λ e. cc, λ e. cc)
key_sign_iff (some j) k = elim (Bool-cases (bytes_eq j k)) [
  | inl p ↦ (λ e. ap some (bytes_eq→eq j k p), λ e. rw p refl)
  | inr p ↦ (
    λ e. absurd (sign_apart (bytes_leb j k) (rw p at e)),
    λ e.
        let q : j ≡ k = cc in
        absurd (clash (bytes_eq j k) (subst (λ k. bytes_eq j k ≡ true) q (bytes_eq_refl j)) p),
  )
]

cursor_sign_iff : (a b : Option Bytes) → (cursor_sign a b ≡ equal) ↔ (a ≡ b)
cursor_sign_iff none none = (λ e. refl, λ e. refl)
cursor_sign_iff (some j) none = (λ e. cc, λ e. cc)
cursor_sign_iff none (some k) = key_sign_iff none k
cursor_sign_iff (some j) (some k) = key_sign_iff (some j) k

not_eq : (j k : Bytes) → (not (bytes_eq j k) ≡ true) ↔ (j ≢ k)
not_eq j k = elim (Bool-cases (bytes_eq j k)) [
  | inl p ↦
      (λ e. absurd (clash (not (bytes_eq j k)) e (rw p refl)), λ n. absurd (n (bytes_eq→eq j k p)))
  | inr p ↦ (
    λ e q. clash (bytes_eq j k) (subst (λ k. bytes_eq j k ≡ true) q (bytes_eq_refl j)) p,
    λ n. rw p refl,
  )
]

less_iff : (j k : Bytes) → (key_sign (some j) k ≡ negative) ↔ ((bytes_leb j k ≡ true) × (j ≢ k))
less_iff j k = elim (Bool-cases (bytes_eq j k)) [
  | inl p ↦ (λ e. absurd (equal_apart (rw p at e)), λ (a, n). absurd (n (bytes_eq→eq j k p)))
  | inr p ↦ elim (Bool-cases (bytes_leb j k)) [
    | inl q ↦ (
      λ e. (q, λ w. clash (bytes_eq j k) (subst (λ k. bytes_eq j k ≡ true) w (bytes_eq_refl j)) p),
      λ (a, n). rw (p, q) refl,
    )
    | inr q ↦ (
      λ e. absurd (positive_apart (rw (p, q) at e)),
      λ (a, n). absurd (clash (bytes_leb j k) a q),
    )
  ]
]

flip_ne : {j k : Bytes} → j ≢ k → k ≢ j
flip_ne n e = n (sym e)

after_iff : (k j : Bytes) → (after (some k) j ≡ true) ↔ ((bytes_leb k j ≡ true) × (k ≢ j))
after_iff k j = (
  λ e. let (a, b) = (&&_iff (bytes_leb k j) _).0 e in (a, (not_eq k j).0 b),
  λ (a, b). (&&_iff (bytes_leb k j) _).1 (a, (not_eq k j).1 b),
)

ahead_iff : (k j : Bytes) → (ahead (some k) j ≡ true) ↔ ((bytes_leb j k ≡ true) × (j ≢ k))
ahead_iff k j = (
  λ e. let (a, b) = (&&_iff (bytes_leb j k) _).0 e in (a, flip_ne ((not_eq k j).0 b)),
  λ (a, b). (&&_iff (bytes_leb j k) _).1 (a, (not_eq k j).1 (flip_ne b)),
)

abbrev geb : Bytes → Bytes → Bool
geb j k = bytes_leb k j

geb_trans : (i j k : Bytes) → geb i j ≡ true → geb j k ≡ true → geb i k ≡ true
geb_trans i j k p q = leb_trans k j i q p

geb_total : (j k : Bytes) → geb j k ≡ false → geb k j ≡ true
geb_total j k e = leb_total k j e

any_total : (j k : Bytes) → (bytes_leb j k ≡ true) ⊎ (bytes_leb k j ≡ true)
any_total j k = elim (Bool-cases (bytes_leb j k)) [ inl p ↦ inl p | inr p ↦ inr (leb_total j k p) ]

pub list_cursors-CursorLaws : CursorLaws list_cursors
list_cursors-CursorLaws = record {
  le_refl = λ k. leb_refl k;
  le_antisym = λ j k p q. leb_antisym j k p q;
  le_trans = λ i j k p q. leb_trans i j k p q;
  le_total = λ j k. any_total j k;
  prefix-create = λ p. refl;
  prefix-lower_bound = λ s c k. refl;
  prefix-next = λ s c. refl;
  prefix-prev = λ s c. refl;
  prefix-move_to_end = λ s c. refl;
  lower = λ s c k.
      best-First bytes_leb leb_refl leb_trans leb_total (λ j. bytes_leb k j) _
        (λ j. (λ e. e, λ e. e)) s c.prefix;
  next = λ s c k at n. rw at (
      best-First bytes_leb leb_refl leb_trans leb_total (after (some k)) _ (after_iff k) s
        c.prefix);
  prev = λ s c k at n.
      rw at
        (best-First geb leb_refl geb_trans geb_total (ahead (some k)) _ (ahead_iff k) s c.prefix);
  prev_of_end = λ s c at. rw at (
      best-First geb leb_refl geb_trans geb_total (ahead none) (λ j. Unit)
        (λ j. (λ e. tt, λ e. refl)) s c.prefix);
  to_end = λ s c. (refl, refl);
  compare_cursors = λ a b e. cursor_sign_iff a.stands b.stands;
  compare_less = λ a b j k e f. rw (e, f) (less_iff j k);
  compare_equal = λ c k. key_sign_iff c.stands k;
  reads = λ s c k b e g. rw (e, g) refl;
  reads_key = λ s c k e n. rw e refl;
}
