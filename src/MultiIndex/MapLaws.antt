-- ===== src/MultiIndex/MapLaws.antt =====
-- The host that keeps the rows as functions has the laws of a host. For the examples.
use taurus_cdt.Prelude.{
  ℕ, zero, suc, ◌+◌, ◌-◌, ◌≡◌, ◌≢◌, ◌≤◌, ◌<◌, refl, sym, ap, ◌∙◌, subst, ◌&&◌, ◌==◌, leb,
  if◌then◌else◌, Option, none, some, Option-cases, Bool-cases, ◌⊎◌, inl, inr, ==_iff, arith, Bool,
  true, false, leb→le, leb-false→lt,
}
use taurus_cdt.MultiIndex.Host.{Bytes, HostLaws, RowSet, EntrySet}
use taurus_cdt.MultiIndex.Order.{
  KeyOrder, KeyOrderLaws, Nearest, OrderLaws, NearestEntry, IndexLaws,
}
use taurus_cdt.MultiIndex.MapHost.{
  Rows, set_row, set_entry, pair, if_some, up, down, lesser, least, entry_of, map_host,
}

pair_inv {ℓ} :
    {A : Type ℓ} (k h : ℕ) (o : Option A) (a : A) → pair k o ≡ some (h, a) → (k ≡ h) × (o ≡ some a)
pair_inv k h none a e = cc
pair_inv k h (some c) a e = (cc, cc)

pair-none {ℓ} : {A : Type ℓ} (k : ℕ) (o : Option A) → pair k o ≡ none → o ≡ none
pair-none k none e = refl
pair-none k (some c) e = cc

pair-if {ℓ} :
    {A : Type ℓ} (p : Bool) (j k : ℕ) (r x : Option A)
    → (p ≡ true → j ≡ k)
    → pair j (if p then r else x) ≡ (if p then pair k r else pair j x)
pair-if true j k r x h = ap (λ i. pair i r) (h refl)
pair-if false j k r x h = refl

set_row-RowSet :
    (s : Rows) (k : ℕ) (r : Option Bytes) → RowSet map_host s k (pair k r) (set_row s k r)
set_row-RowSet s k r = (λ j. pair-if (j == k) j k r (s.row j) (λ e. (==_iff j k).0 e), λ n j. refl)

&&-second : (p q : Bool) → (p && q) ≡ true → q ≡ true
&&-second true q e = e
&&-second false q e = cc

set_entry-EntrySet :
    (s : Rows) (n k : ℕ) (r : Option ℕ) → EntrySet map_host s n k (pair k r) (set_entry s n k r)
set_entry-EntrySet s n k r = (
  λ j. refl,
  λ m j.
      pair-if (m == n && j == k) j k r (s.entry m j)
        (λ e. (==_iff j k).0 (&&-second (m == n) (j == k) e)),
)

live_row :
    (s : Rows) (k h : ℕ) (b : Bytes) → pair k (s.row k) ≡ some (h, b) → (k ≡ h) × (s.row h ≡ some b)
live_row s k h b e = let (p, q) = pair_inv k h (s.row k) b e in (p, ap s.row (sym p) ∙ q)

changed_row :
    (s : Rows) (k h : ℕ) (b : Bytes) (r : Option Bytes)
    → pair k (s.row k) ≡ some (h, b)
    → (s' : Rows) × (if_some (s.row h) (set_row s h r) ≡ some s')
      × RowSet map_host s k (pair h r) s'
changed_row s k h b r e =
    let (p, q) = live_row s k h b e in
    (
      set_row s h r,
      rw q refl,
      subst (λ k. RowSet map_host s k (pair h r) (set_row s h r)) (sym p) (set_row-RowSet s h r),
    )

changed_entry :
    (s : Rows) (n k g x : ℕ) (r : Option ℕ)
    → pair k (s.entry n k) ≡ some (g, x)
    → (s' : Rows) × (if_some (s.entry n g) (set_entry s n g r) ≡ some s')
      × EntrySet map_host s n k (pair g r) s'
changed_entry s n k g x r e =
    let (p, q) = pair_inv k g (s.entry n k) x e in
    let l : s.entry n g ≡ some x = ap (s.entry n) (sym p) ∙ q in
    (
      set_entry s n g r,
      rw l refl,
      subst (λ k. EntrySet map_host s n k (pair g r) (set_entry s n g r)) (sym p)
          (set_entry-EntrySet s n g r),
    )

pub map_host-HostLaws : HostLaws map_host
map_host-HostLaws = record {
  get-lookup = λ s k h b e. (live_row s k h b e).1;
  one_key = λ s j k h b c e f. (live_row s j h b e).0 ∙ sym (live_row s k h c f).0;
  store_new = λ s k b e.
      (k, set_row s k (some b), rw (pair-none k (s.row k) e) refl, set_row-RowSet s k (some b));
  store_taken =
      λ s k b r e. (let q : s.row k ≡ some r.1 = (pair_inv k r.0 (s.row k) r.1 e).1 in rw q refl);
  update_live = λ s k h b c e. changed_row s k h b (some c) e;
  remove_live = λ s k h b e. changed_row s k h b none e;
  idx_store_new = λ s n k x e. (
    k,
    set_entry s n k (some x),
    rw (pair-none k (s.entry n k) e) refl,
    set_entry-EntrySet s n k (some x),
  );
  idx_update_live = λ s n k g x y e. changed_entry s n k g x (some y) e;
  idx_remove_live = λ s n k g x e. changed_entry s n k g x none e;
}

wider :
    (s : Rows) (In In' : ℕ → Type 0) (Before : ℕ → ℕ → Type 0) (p : ℕ) (o : Option ℕ)
    → s.row p ≡ none
    → ((j : ℕ) → In j → In' j)
    → ((j : ℕ) → In' j → j ≢ p → In j)
    → Nearest map_host s In Before o
    → Nearest map_host s In' Before o
wider s In In' Before p none e f g n = λ j l. elim (Bool-cases (j == p)) [
  | inl q ↦ (let z = (==_iff j p).0 q in ap (pair j) (ap s.row z ∙ e))
  | inr q ↦ n j (g j l (λ z. let w = (==_iff j p).1 z in cc))
]
wider s In In' Before p (some h) e f g (k, b, r, i, m) =
    (k, b, r, f k i, λ j l d. m j (g j l (λ z. d (ap (pair j) (ap s.row z ∙ e)))) d)

up-Nearest :
    (s : Rows) (p n : ℕ)
    → s.bound ≤ p + n
    → Nearest map_host s (λ j. p ≤ j) (λ k j. k ≤ j) (up s.row p n)
up-Nearest s p zero h = λ j l. ap (pair j) (s.row_bound j (omega (arith, h, l)))
up-Nearest s p (suc n) h = elim (Option-cases (s.row p)) [
  | inr (b, e) ↦
      (let q : up s.row p (suc n) ≡ some p = rw (up, e) refl in
        rw q (p, b, rw e refl, omega arith, λ j l q. l))
  | inl e ↦
      (let q : up s.row p (suc n) ≡ up s.row (p + 1) n = rw (up, e) refl in
        rw q (
          wider s (λ j. p + 1 ≤ j) (λ j. p ≤ j) (λ k j. k ≤ j) p (up s.row (p + 1) n) e
            (λ j l. omega (arith, l)) (λ j l d. omega (arith, l, d))
            (up-Nearest s (p + 1) n (omega (arith, h)))))
]

down-Nearest : (s : Rows) (p : ℕ) → Nearest map_host s (λ j. j < p) (λ k j. j ≤ k) (down s.row p)
down-Nearest s zero = λ j l. absurd (omega (arith, l))
down-Nearest s (suc p) = elim (Option-cases (s.row p)) [
  | inr (b, e) ↦
      (let q : down s.row (suc p) ≡ some p = rw (down, e) refl in
        rw q (p, b, rw e refl, omega arith, λ j l q. omega (arith, l)))
  | inl e ↦
      (let q : down s.row (suc p) ≡ down s.row p = rw (down, e) refl in
        rw q (
          wider s (λ j. j < p) (λ j. j < suc p) (λ k j. j ≤ k) p (down s.row p) e
            (λ j l. omega (arith, l)) (λ j l d. omega (arith, l, d)) (down-Nearest s p)))
]

-- Keys in use are below the bound.
all_below_bound :
    (s : Rows) (o : Option ℕ)
    → Nearest map_host s (λ j. j < s.bound) (λ k j. j ≤ k) o
    → Nearest map_host s (λ j. Unit {0}) (λ k j. j ≤ k) o
all_below_bound s none n = λ j l. elim (Bool-cases (leb s.bound j)) [
  | inl q ↦ ap (pair j) (s.row_bound j (leb→le s.bound j q))
  | inr q ↦ n j (leb-false→lt s.bound j q)
]
all_below_bound s (some h) (k, b, r, i, m) = (
  k,
  b,
  r,
  tt,
  λ j l d. elim (Bool-cases (leb s.bound j)) [
    | inl q ↦ absurd (d (ap (pair j) (s.row_bound j (leb→le s.bound j q))))
    | inr q ↦ m j (leb-false→lt s.bound j q) d
  ],
)

strictly :
    (s : Rows) (p : ℕ) (o : Option ℕ)
    → Nearest map_host s (λ j. p + 1 ≤ j) (λ k j. k ≤ j) o
    → Nearest map_host s (λ j. p < j) (λ k j. k ≤ j) o
strictly s p none n = λ j l. n j (omega (arith, l))
strictly s p (some h) (k, b, r, i, m) =
    (k, b, r, omega (arith, i), λ j l d. m j (omega (arith, l)) d)

up-above :
    (s : Rows) (p : ℕ)
    → Nearest map_host s (λ j. p < j) (λ k j. k ≤ j) (up s.row (p + 1) (s.bound - (p + 1)))
up-above s p = strictly s p _ (up-Nearest s (p + 1) (s.bound - (p + 1)) (omega arith))

pub map_host-OrderLaws : OrderLaws map_host
map_host-OrderLaws = record {
  lowerbound = λ s p. up-Nearest s p (s.bound - p) (omega arith);
  upperbound = λ s p. up-above s p;
  next = λ s k h b e.
      subst
        (λ h. Nearest map_host s (λ j. k < j) (λ k j. k ≤ j) (up s.row (h + 1) (s.bound - (h + 1))))
        (live_row s k h b e).0 (up-above s k);
  previous = λ s k h b e.
      subst (λ h. Nearest map_host s (λ j. j < k) (λ k j. j ≤ k) (down s.row h))
        (live_row s k h b e).0 (down-Nearest s k);
  end_empty = λ s e j. cc;
  end_previous = λ s e q.
      let b : s.bound ≡ e = cc in
      subst (λ e. Nearest map_host s (λ j. Unit {0}) (λ k j. j ≤ k) (down s.row e)) b
        (all_below_bound s _ (down-Nearest s s.bound));
}

abbrev pub by_value : KeyOrder ℕ
by_value = record { Le = λ x y. x ≤ y; eqb = λ x y. x == y; lowest = 0 }

pub by_value-KeyOrderLaws : KeyOrderLaws by_value
by_value-KeyOrderLaws = record {
  le_refl = λ x. omega arith;
  le_antisym = λ x y p q. omega (arith, p, q);
  eqb_iff = λ x y. ==_iff x y;
}

-- The least of the entries below a primary key.
abbrev Least : (ℕ → Option ℕ) → ℕ → ℕ → Option (ℕ × ℕ) → Type 0
Least f x n none = (j y : ℕ) → j < n → f j ≡ some y → ¬ (x ≤ y)
Least f x n (some (k, z)) =
    (f k ≡ some z) × (x ≤ z) × ((j y : ℕ) → j < n → f j ≡ some y → x ≤ y → z ≤ y)

at_last : (f : ℕ → Option ℕ) (n j y : ℕ) → j < suc n → f j ≡ some y → (j < n) ⊎ (f n ≡ some y)
at_last f n j y l e = elim (Bool-cases (leb n j)) [
  | inl q ↦ (let z : j ≡ n = omega (arith, l, leb→le n j q) in inr (ap f (sym z) ∙ e))
  | inr q ↦ inl (leb-false→lt n j q)
]

Least-skip :
    (f : ℕ → Option ℕ) (x n : ℕ) (o : Option (ℕ × ℕ))
    → ((y : ℕ) → f n ≡ some y → ¬ (x ≤ y))
    → Least f x n o
    → Least f x (suc n) o
Least-skip f x n none d h =
    λ j y l e. elim (at_last f n j y l e) [ inl k ↦ h j y k e | inr k ↦ d y k ]
Least-skip f x n (some (k, z)) d (p, q, m) = (
  p,
  q,
  λ j y l e g. elim (at_last f n j y l e) [ inl k ↦ m j y k e g | inr k ↦ absurd (d y k g) ],
)

Least-lesser :
    (f : ℕ → Option ℕ) (x n y : ℕ) (o : Option (ℕ × ℕ))
    → f n ≡ some y
    → x ≤ y
    → Least f x n o
    → Least f x (suc n) (lesser n y o)
Least-lesser f x n y none e g h = (
  e,
  g,
  λ j z l d i. elim (at_last f n j z l d) [
    | inl k ↦ absurd (h j z k d i)
    | inr k ↦ (let u : some y ≡ some z = sym e ∙ k in let v : y ≡ z = cc in omega (arith, v))
  ],
)
Least-lesser f x n y (some (k, z)) e g (p, q, m) = elim (Bool-cases (leb z y)) [
  | inl r ↦ rw r (
    p,
    q,
    λ j w l d i. elim (at_last f n j w l d) [
      | inl k ↦ m j w k d i
      | inr k ↦
          (let u : some y ≡ some w = sym e ∙ k in
            let v : y ≡ w = cc in omega (arith, v, leb→le z y r))
    ],
  )
  | inr r ↦ rw r (
    e,
    g,
    λ j w l d i. elim (at_last f n j w l d) [
      | inl k ↦ omega (arith, m j w k d i, leb-false→lt z y r)
      | inr k ↦ (let u : some y ≡ some w = sym e ∙ k in let v : y ≡ w = cc in omega (arith, v))
    ],
  )
]

least-Least : (f : ℕ → Option ℕ) (x n : ℕ) → Least f x n (least f x n)
least-Least f x zero = λ j y l e. absurd (omega (arith, l))
least-Least f x (suc n) = elim (Option-cases (f n)) [
  | inl e ↦
      (let q : least f x (suc n) ≡ least f x n = rw (least, e) refl in
        rw q
          (Least-skip f x n _ (λ y d. let u : none ≡ some y = sym e ∙ d in cc) (least-Least f x n)))
  | inr (y, e) ↦ elim (Bool-cases (leb x y)) [
    | inl p ↦
        (let q : least f x (suc n) ≡ lesser n y (least f x n) = rw (least, e, p) refl in
          rw q (Least-lesser f x n y (least f x n) e (leb→le x y p) (least-Least f x n)))
    | inr p ↦
        (let q : least f x (suc n) ≡ least f x n = rw (least, e, p) refl in
          rw q (
            Least-skip f x n (least f x n)
              (λ z d i.
                let u : some y ≡ some z = sym e ∙ d in
                let v : y ≡ z = cc in absurd (omega (arith, v, i, leb-false→lt x y p)))
              (least-Least f x n)))
  ]
]

entry_below : (s : Rows) (n j y : ℕ) → s.entry n j ≡ some y → j < s.bound
entry_below s n j y d = elim (Bool-cases (leb s.bound j)) [
  | inl q ↦ (let u : none ≡ some y = sym (s.entry_bound n j (leb→le s.bound j q)) ∙ d in cc)
  | inr q ↦ leb-false→lt s.bound j q
]

entry_of-Nearest :
    (s : Rows) (n x : ℕ) (o : Option (ℕ × ℕ))
    → Least (s.entry n) x s.bound o
    → NearestEntry map_host by_value s n (λ y. x ≤ y) (entry_of o)
entry_of-Nearest s n x none h =
    λ j g y e. let d = (pair_inv j g (s.entry n j) y e).1 in h j y (entry_below s n j y d) d
entry_of-Nearest s n x (some (k, z)) (p, q, m) = (
  z,
  ap (pair k) p,
  q,
  λ j g y e. let d = (pair_inv j g (s.entry n j) y e).1 in m j y (entry_below s n j y d) d,
)

pub map_host-IndexLaws : IndexLaws map_host by_value
map_host-IndexLaws = record {
  idx_lower = λ s n x. entry_of-Nearest s n x _ (least-Least (s.entry n) x s.bound);
}
