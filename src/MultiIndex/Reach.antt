-- ===== src/MultiIndex/Reach.antt =====
-- The iterators of libraries/eosiolib/contracts/eosio/multi_index.hpp against the abstract table: which object
-- they reach.
use taurus_cdt.Prelude.{
  ℕ, ◌≡◌, ◌≢◌, ◌≤◌, ◌<◌, refl, sym, subst, Option, none, some, Result, ok, err, ◌>>=◌,
}
use taurus_cdt.MultiIndex.Host.{DbHost, HostLaws}
use taurus_cdt.MultiIndex.Order.{Nearest, OrderLaws}
use taurus_cdt.MultiIndex.{
  Schema, Lawful, Failure, table_is_empty, at_beginning, Item, Table, load_object, or_failure,
}
use taurus_cdt.MultiIndex.Consistency.{Cached, Consistent, content, content-none}
use taurus_cdt.MultiIndex.Find.{Loads, load_object-Loads}
use taurus_cdt.MultiIndex.Iterator.{load_at, lower_bound, upper_bound, increment, decrement}

module _ {V Key : Type 0} (t : Schema V Key) (host : DbHost Key) (laws : Lawful t)
    (hosted : HostLaws host) where
  open host use {Store, lookup}

  -- The item of the first object, in an order, of those whose keys are in a range.
  abbrev pub First : Table t host → (ℕ → Type 0) → (ℕ → ℕ → Type 0) → Item V → Table t host → Type 0
  First m In Before i m' =
      Loads t host laws hosted m (t.primary_key i.obj) i m'
      × In (t.primary_key i.obj)
      × ((j : ℕ) → In j → content t host m.store j ≢ none → Before (t.primary_key i.obj) j)

  -- The end is reached only where no object is in the range.
  abbrev pub Reaches :
      Table t host
      → (ℕ → Type 0)
      → (ℕ → ℕ → Type 0)
      → Result Failure (Option (Item V) × Table t host)
      → Type 0
  Reaches m In Before (err e) = ⊥
  Reaches m In Before (ok (none, m')) =
      ((j : ℕ) → In j → content t host m.store j ≡ none) × (m' ≡ m)
  Reaches m In Before (ok (some i, m')) = First m In Before i m'

  load_object-First :
      (m : Table t host) (In : ℕ → Type 0) (Before : ℕ → ℕ → Type 0) (h : ℕ)
      → Consistent t host m
      → Nearest host m.store In Before (some h)
      → (i : Item V) × (m' : Table t host) × (load_object t host m h ≡ ok (i, m'))
        × First m In Before i m'
  load_object-First m In Before h c (k, b, r, p, before) =
      let (i, m', q, l) = load_object-Loads t host laws hosted m k h b c r in
      let e = sym l.0 in
      (
        i,
        m',
        q,
        (
          subst (λ k. Loads t host laws hosted m k i m') e l,
          subst In e p,
          λ j u v.
              subst (λ k. Before k j) e (before j u (λ n. v (content-none t host m.store j n))),
        ),
      )

  pub load_at-Reaches :
      (m : Table t host) (In : ℕ → Type 0) (Before : ℕ → ℕ → Type 0) (o : Option ℕ)
      → Consistent t host m
      → Nearest host m.store In Before o
      → Reaches m In Before (load_at t host m o)
  unfolding load_at
  load_at-Reaches m In Before none c n = (λ j p. content-none t host m.store j (n j p), refl)
  load_at-Reaches m In Before (some h) c n =
      let (i, m', q, l) = load_object-First m In Before h c n in rw q l

  -- For a table whose cache agrees with the host, `lower_bound` and `upper_bound` reach the object of
  -- the least key from the given one on and above it, and `++` at a cached item that of the least key
  -- above its own; each gives the end exactly where there is no such object.
  pub bounds-Reaches :
      (m : Table t host) (primary : ℕ) (i : Item V)
      → OrderLaws host
      → Consistent t host m
      → Cached t host m.store i
      → Reaches m (λ j. primary ≤ j) (λ k j. k ≤ j) (lower_bound t host m primary)
        × (Reaches m (λ j. primary < j) (λ k j. k ≤ j) (upper_bound t host m primary)
            × Reaches m (λ j. t.primary_key i.obj < j) (λ k j. k ≤ j) (increment t host m (some i)))
  unfolding lower_bound upper_bound increment
  bounds-Reaches m primary i order c ci = (
    load_at-Reaches m (λ j. primary ≤ j) (λ k j. k ≤ j) _ c (order.lowerbound m.store primary),
    (
      load_at-Reaches m (λ j. primary < j) (λ k j. k ≤ j) _ c (order.upperbound m.store primary),
      load_at-Reaches m (λ j. t.primary_key i.obj < j) (λ k j. k ≤ j) _ c
          (order.next m.store (t.primary_key i.obj) i.primary_itr (t.pack i.obj) ci.row),
    ),
  )

  -- What `--` gives, with the message of the place where it stands.
  abbrev pub Backs :
      Table t host → Failure → (ℕ → Type 0) → Result Failure (Item V × Table t host) → Type 0
  Backs m f In (err e) = (e ≡ f) × ((j : ℕ) → In j → content t host m.store j ≡ none)
  Backs m f In (ok (i, m')) = First m In (λ k j. j ≤ k) i m'

  previous-Backs :
      (m : Table t host) (f : Failure) (In : ℕ → Type 0) (o : Option ℕ)
      → Consistent t host m
      → Nearest host m.store In (λ k j. j ≤ k) o
      → Backs m f In (or_failure o f >>= λ itr. load_object t host m itr)
  previous-Backs m f In none c n = (refl, λ j p. content-none t host m.store j (n j p))
  previous-Backs m f In (some h) c n =
      let (i, m', q, l) = load_object-First m In (λ k j. j ≤ k) h c n in rw q l

  pub end-Backs :
      (m : Table t host) (o : Option ℕ)
      → Consistent t host m
      → OrderLaws host
      → host.db_end m.store ≡ o
      → Backs m table_is_empty
          (λ j. Unit {0})
          (or_failure o table_is_empty >>= λ ei.
            or_failure (host.db_previous m.store ei) table_is_empty >>= λ itr.
            load_object t host m itr)
  end-Backs m none c order e =
      (refl, λ j p. content-none t host m.store j (order.end_empty m.store e j))
  end-Backs m (some ei) c order e =
      previous-Backs m table_is_empty (λ j. Unit {0}) (host.db_previous m.store ei) c
        (order.end_previous m.store ei e)

  -- For a table whose cache agrees with the host, `--` at the end reaches the object of the greatest
  -- key and fails exactly where the table is empty, and `--` at a cached item reaches that of the
  -- greatest key below its own and fails exactly where there is none.
  pub decrement-Backs :
      (m : Table t host) (i : Item V)
      → OrderLaws host
      → Consistent t host m
      → Cached t host m.store i
      → Backs m table_is_empty (λ j. Unit {0}) (decrement t host m none)
        × Backs m at_beginning (λ j. j < t.primary_key i.obj) (decrement t host m (some i))
  unfolding decrement
  decrement-Backs m i order c ci = (
    end-Backs m (host.db_end m.store) c order refl,
    previous-Backs m at_beginning (λ j. j < t.primary_key i.obj) _ c
        (order.previous m.store (t.primary_key i.obj) i.primary_itr (t.pack i.obj) ci.row),
  )
