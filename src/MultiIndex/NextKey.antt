-- ===== src/MultiIndex/NextKey.antt =====
-- `available_primary_key` of libraries/eosiolib/contracts/eosio/multi_index.hpp: the key that it gives is free.
use taurus_cdt.Prelude.{
  ℕ, ◌-◌, ◌^◌, ◌≡◌, ◌≢◌, ◌≤◌, ◌<◌, ◌⊎◌, refl, ap, ◌∙◌, subst, ◌==◌, leb, ltb, Option, none, some,
  Bool-cases, inl, inr, ==_iff, leb→le, leb-false→lt, ltb→lt, ltb-false→le, arith, Result, ok, err,
  ◌>>=◌, ◌>>◌, check,
}
use taurus_cdt.MultiIndex.Host.{DbHost, HostLaws}
use taurus_cdt.MultiIndex.Order.{OrderLaws}
use taurus_cdt.MultiIndex.{
  Schema, Lawful, Failure, table_is_empty, autoincrement_limit, Item, Table,
  no_available_primary_key, unset_next_primary_key,
}
use taurus_cdt.MultiIndex.Consistency.{Consistent, content}
use taurus_cdt.MultiIndex.Reach.{First, Reaches, load_at-Reaches, Backs, end-Backs}
use taurus_cdt.MultiIndex.Iterator.{
  begin, lower_bound, decrement, next_of_last, next_of_first, find_next_primary_key,
  available_primary_key,
}

module _ {V Key : Type 0} (t : Schema V Key) (host : DbHost Key) (laws : Lawful t)
    (hosted : HostLaws host) where
  open host use {Store}

  -- All keys in use are below this one.
  abbrev pub Above : Store → ℕ → Type 0
  Above s k = (j : ℕ) → content t host s j ≢ none → j < k

  -- The member is a word, and a tag or above the keys in use.
  abbrev pub Ahead : Table t host → Type 0
  Ahead m =
      (m.next_primary_key < 2 ^ 64)
      × (m.next_primary_key < no_available_primary_key → Above m.store m.next_primary_key)

  -- A row whose key leaves no other above it.
  abbrev pub Last : Store → Type 0
  Last s = (j : ℕ) × (v : V) × (content t host s j ≡ some v) × (2 ^ 64 - 3 ≤ j)

  abbrev pub NextFound : Table t host → Result Failure (Table t host) → Type 0
  NextFound m (err e) = ⊥
  NextFound m (ok m') =
      (m'.store ≡ m.store)
      × Consistent t host m'
      × Ahead m'
      × (no_available_primary_key ≤ m'.next_primary_key → Last m.store)

  with_next :
      (m : Table t host) (k : ℕ)
      → Consistent t host m
      → Consistent t host (record m { next_primary_key = k })
  with_next m k c = record { filed = c.filed; cached = c.cached; distinct = c.distinct }

  last_found :
      (m m₂ : Table t host) (i : Item V)
      → First t host laws hosted m (λ j. Unit {0}) (λ k j. j ≤ k) i m₂
      → NextFound m (next_of_last t host (i, m₂))
  unfolding next_of_last
  last_found m m₂ i ((l, c, u, k, h), p, before) =
      let pk = t.primary_key i.obj in
      elim (Bool-cases (leb no_available_primary_key pk)) [
        | inl q ↦ (
          u.same_store,
          with_next m₂ _ k,
          rw q (omega arith, λ f. absurd (omega (arith, f))),
          λ f. (pk, i.obj, c, omega (arith, leb→le no_available_primary_key pk q)),
        )
        | inr q ↦ (
          u.same_store,
          with_next m₂ _ k,
          rw q (
            omega (arith, leb-false→lt no_available_primary_key pk q),
            λ f j v. omega (arith, before j tt (rw u.same_store at v)),
          ),
          rw q (λ f. (pk, i.obj, c, omega (arith, f))),
        )
      ]

  NextFound-store :
      (m m₁ : Table t host) (r : Result Failure (Table t host))
      → m₁.store ≡ m.store
      → NextFound m₁ r
      → NextFound m r
  NextFound-store m m₁ (err e) s h = h
  NextFound-store m m₁ (ok m') s (a, b, c, d) = (a ∙ s, b, c, λ f. subst Last s (d f))

  back_found :
      (m : Table t host) (i : Item V) (r : Result Failure (Item V × Table t host))
      → content t host m.store (t.primary_key i.obj) ≡ some i.obj
      → Backs t host laws hosted m table_is_empty (λ j. Unit {0}) r
      → NextFound m (r >>= λ r. next_of_last t host r)
  back_found m i (err e) c h = (let w = h.1 (t.primary_key i.obj) tt in cc)
  back_found m i (ok (j, m₂)) c h = last_found m m₂ j h

  first_found :
      (m : Table t host) (r : Result Failure (Option (Item V) × Table t host))
      → OrderLaws host
      → Consistent t host m
      → Reaches t host laws hosted m (λ j. 0 ≤ j) (λ k j. k ≤ j) r
      → NextFound m (r >>= λ r. next_of_first t host r)
  unfolding next_of_first decrement
  first_found m (err e) order c h = h
  first_found m (ok (none, m₁)) order c (h, q) = (
    ap (λ (x : Table t host). x.store) q,
    with_next m₁ 0 (rw q c),
    (omega arith, λ f j v. absurd (v (rw q (h j (omega arith))))),
    λ f. absurd (omega (arith, f)),
  )
  first_found m (ok (some i, m₁)) order c ((l, p, u, k, held), n, before) =
      NextFound-store m m₁ _ u.same_store (
        back_found m₁ i _ (rw u.same_store p)
          (end-Backs t host laws hosted m₁ (host.db_end m₁.store) k order refl))

  find_next_primary_key-NextFound :
      (m : Table t host)
      → OrderLaws host
      → Consistent t host m
      → NextFound m (find_next_primary_key t host m)
  unfolding find_next_primary_key begin lower_bound
  find_next_primary_key-NextFound m order c = first_found m _ order c (
      load_at-Reaches t host laws hosted m (λ j. 0 ≤ j) (λ k j. k ≤ j) _ c
        (order.lowerbound m.store 0))

  abbrev pub Available : Table t host → Result Failure (ℕ × Table t host) → Type 0
  Available m (err e) =
      (e ≡ autoincrement_limit) × ((m.next_primary_key ≡ no_available_primary_key) ⊎ Last m.store)
  Available m (ok (k, m')) =
      (k < no_available_primary_key)
      × Above m.store k
      × (m'.store ≡ m.store)
      × Consistent t host m'
      × Ahead m'

  checked-Available :
      (m m' : Table t host)
      → m'.store ≡ m.store
      → Consistent t host m'
      → Ahead m'
      → (no_available_primary_key ≤ m'.next_primary_key
          → (m.next_primary_key ≡ no_available_primary_key) ⊎ Last m.store)
      → Available m (
          check (ltb m'.next_primary_key no_available_primary_key) autoincrement_limit
          >> ok (m'.next_primary_key, m'))
  checked-Available m m' s c a l =
      elim (Bool-cases (ltb m'.next_primary_key no_available_primary_key)) [
        | inl p ↦
            (let q = ltb→lt m'.next_primary_key no_available_primary_key p in
              rw p (q, subst (λ s. Above s m'.next_primary_key) s (a.1 q), s, c, a))
        | inr p ↦ rw p (refl, l (ltb-false→le m'.next_primary_key no_available_primary_key p))
      ]

  found-Available :
      (m : Table t host) (r : Result Failure (Table t host))
      → NextFound m r
      → Available m (
          r >>= λ m'.
          check (ltb m'.next_primary_key no_available_primary_key) autoincrement_limit
          >> ok (m'.next_primary_key, m'))
  found-Available m (err e) h = absurd h
  found-Available m (ok m') (s, c, a, l) = checked-Available m m' s c a (λ f. inr (l f))

  -- For a table whose cache agrees with the host, and whose next key, where it is set, is above all keys
  -- in use, `available_primary_key` gives a key above all those in use, below the tags, and leaves the
  -- table as it was and the next key above all; it fails only where the next key is at its limit, or a
  -- row has one of the last three keys.
  pub available_primary_key-Above :
      (m : Table t host)
      → OrderLaws host
      → Consistent t host m
      → Ahead m
      → Available m (available_primary_key t host m)
  unfolding available_primary_key
  available_primary_key-Above m order c a =
      elim (Bool-cases (m.next_primary_key == unset_next_primary_key)) [
        | inl p ↦ rw p (found-Available m _ (find_next_primary_key-NextFound m order c))
        | inr p ↦
            (let n : m.next_primary_key ≢ unset_next_primary_key =
                λ e. (let w = (==_iff m.next_primary_key unset_next_primary_key).1 e in cc) in
              rw p (checked-Available m m refl c a (λ f. inl (omega (arith, f, n, a.0)))))
      ]
