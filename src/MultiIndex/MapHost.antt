-- ===== src/MultiIndex/MapHost.antt =====
-- A host that keeps the rows and entries as functions, with a bound above all keys in use. The handle of
-- a row or an entry is its primary key. For the examples.
use taurus_cdt.Prelude.{
  ℕ, zero, suc, ◌+◌, ◌-◌, ◌≡◌, ◌≢◌, ◌≤◌, ◌<◌, refl, ◌∙◌, ◌&&◌, ◌==◌, leb, if◌then◌else◌, Option,
  none, some, Bool-cases, inl, inr, ne→==-false, arith, Bool, true, false, leb→le, leb-false→lt,
}
use taurus_cdt.MultiIndex.Host.{Bytes, DbHost}

pub record Rows : Type 0 where
  pub row : ℕ → Option Bytes
  pub entry : ℕ → ℕ → Option ℕ
  pub bound : ℕ
  pub row_bound : (k : ℕ) → bound ≤ k → row k ≡ none
  pub entry_bound : (n k : ℕ) → bound ≤ k → entry n k ≡ none

abbrev pub above : ℕ → ℕ → ℕ
above k b = if leb b k then k + 1 else b

pub above-lt : (k b j : ℕ) → above k b ≤ j → (b ≤ j) × (k < j)
above-lt k b j h = elim (Bool-cases (leb b k)) [
  | inl p ↦
      (let h' : k + 1 ≤ j = rw p at h in
        let l = leb→le b k p in (omega (arith, l, h'), omega (arith, h')))
  | inr p ↦ (let h' : b ≤ j = rw p at h in let l = leb-false→lt b k p in (h', omega (arith, l, h')))
]

abbrev pub set_row : Rows → ℕ → Option Bytes → Rows
set_row s k r = record {
  row = λ j. if j == k then r else s.row j;
  entry = s.entry;
  bound = above k s.bound;
  row_bound = λ j h.
      let (b, l) = above-lt k s.bound j h in
      rw (ne→==-false j k (λ e. omega (arith, e, l))) (s.row_bound j b);
  entry_bound = λ n j h. s.entry_bound n j (above-lt k s.bound j h).0;
}

pub entry_off {ℓ} :
    {A : Type ℓ} (p : Bool) (j k : ℕ) (r x : A) → j ≢ k → (if p && j == k then r else x) ≡ x
entry_off true j k r x d = rw (ne→==-false j k d) refl
entry_off false j k r x d = refl

abbrev pub set_entry : Rows → ℕ → ℕ → Option ℕ → Rows
set_entry s n k r = record {
  row = s.row;
  entry = λ m j. if m == n && j == k then r else s.entry m j;
  bound = above k s.bound;
  row_bound = λ j h. s.row_bound j (above-lt k s.bound j h).0;
  entry_bound = λ m j h.
      let (b, l) = above-lt k s.bound j h in
      entry_off (m == n) j k r (s.entry m j) (λ e. omega (arith, e, l)) ∙ s.entry_bound m j b;
}

abbrev pub pair {ℓ} : {A : Type ℓ} → ℕ → Option A → Option (ℕ × A)
pair k none = none
pair k (some a) = some (k, a)

abbrev pub if_none {ℓ κ} : {A : Type ℓ} {B : Type κ} → Option A → B → Option B
if_none none b = some b
if_none (some a) b = none

abbrev pub if_some {ℓ κ} : {A : Type ℓ} {B : Type κ} → Option A → B → Option B
if_some none b = none
if_some (some a) b = some b

-- The first key in use from `p` on.
abbrev pub up : (ℕ → Option Bytes) → ℕ → ℕ → Option ℕ
up f p zero = none
up f p (suc n) = let rest = up f (p + 1) n in elim (f p) [ some b ↦ some p | none ↦ rest ]

-- The last key in use below `p`.
abbrev pub down : (ℕ → Option Bytes) → ℕ → Option ℕ
down f zero = none
down f (suc k) = let rest = down f k in elim (f k) [ some b ↦ some k | none ↦ rest ]

abbrev pub lesser : ℕ → ℕ → Option (ℕ × ℕ) → Option (ℕ × ℕ)
lesser k y none = some (k, y)
lesser k y (some (j, z)) = if leb z y then some (j, z) else some (k, y)

-- The primary key and the secondary key of the least entry from `x` on, of those below a primary key.
abbrev pub least : (ℕ → Option ℕ) → ℕ → ℕ → Option (ℕ × ℕ)
least f x zero = none
least f x (suc k) =
    let rest = least f x k in
    elim (f k) [ none ↦ rest | some y ↦ if leb x y then lesser k y rest else rest ]

abbrev pub entry_of : Option (ℕ × ℕ) → Option (ℕ × ℕ)
entry_of none = none
entry_of (some (k, y)) = some (k, k)

abbrev pub map_host : DbHost ℕ
map_host = record {
  Store = Rows;
  current_receiver = 7;
  lookup = λ s k. pair k (s.row k);
  db_get = λ s h. s.row h;
  db_store = λ s k b. if_none (s.row k) (k, set_row s k (some b));
  db_update = λ s h c. if_some (s.row h) (set_row s h (some c));
  db_remove = λ s h. if_some (s.row h) (set_row s h none);
  sec = λ s n k. pair k (s.entry n k);
  idx_store = λ s n k x. if_none (s.entry n k) (k, set_entry s n k (some x));
  idx_update = λ s n g y. if_some (s.entry n g) (set_entry s n g (some y));
  idx_remove = λ s n g. if_some (s.entry n g) (set_entry s n g none);
  db_lowerbound = λ s p. up s.row p (s.bound - p);
  db_upperbound = λ s p. up s.row (p + 1) (s.bound - (p + 1));
  db_next = λ s h. up s.row (h + 1) (s.bound - (h + 1));
  db_previous = λ s h. down s.row h;
  db_end = λ s. some s.bound;
  idx_lowerbound = λ s n x. entry_of (least (s.entry n) x s.bound);
  idx_upperbound = λ s n x. entry_of (least (s.entry n) (x + 1) s.bound);
  idx_next = λ s n g. none;
  idx_previous = λ s n g. none;
  idx_end = λ s n. none;
}

abbrev pub nothing : Rows
nothing = record {
  row = λ k. none;
  entry = λ n k. none;
  bound = 0;
  row_bound = λ k h. refl;
  entry_bound = λ n k h. refl;
}
