-- ===== src/MultiIndex/Iterator.antt =====
-- The iterators of libraries/eosiolib/contracts/eosio/multi_index.hpp over the rows, in the order of their
-- keys. An iterator is the item that it stands at, or `none` at the end.
use taurus_cdt.Prelude.{
  ℕ, ◌+◌, ◌==◌, ltb, leb, if◌then◌else◌, Option, none, some, Result, ok, err, ◌>>=◌, ◌>>◌, check,
}
use taurus_cdt.MultiIndex.Host.{DbHost}
use taurus_cdt.MultiIndex.{
  Schema, Failure, cannot_increment_end, table_is_empty, at_beginning, autoincrement_limit,
  cannot_pass_end, Item, Table, load_object, or_failure, ref_to, modify, erase,
  no_available_primary_key, unset_next_primary_key,
}

module _ {V Key : Type 0} (t : Schema V Key) (host : DbHost Key) where
  -- The row of a handle, or the end.
  unfoldable pub load_at : Table t host → Option ℕ → Result Failure (Option (Item V) × Table t host)
  unfolding load_object
  load_at m none = ok (none, m)
  load_at m (some itr) = load_object t host m itr >>= λ (i, m'). ok (some i, m')

  unfoldable pub lower_bound : Table t host → ℕ → Result Failure (Option (Item V) × Table t host)
  unfolding load_at
  lower_bound m primary = load_at m (host.db_lowerbound m.store primary)

  unfoldable pub upper_bound : Table t host → ℕ → Result Failure (Option (Item V) × Table t host)
  unfolding load_at
  upper_bound m primary = load_at m (host.db_upperbound m.store primary)

  unfoldable pub begin : Table t host → Result Failure (Option (Item V) × Table t host)
  unfolding lower_bound
  begin m = lower_bound m 0

  -- `operator++`
  unfoldable pub increment :
      Table t host → Option (Item V) → Result Failure (Option (Item V) × Table t host)
  unfolding load_at
  increment m none = err cannot_increment_end
  increment m (some i) = load_at m (host.db_next m.store i.primary_itr)

  -- `operator--`
  unfoldable pub decrement : Table t host → Option (Item V) → Result Failure (Item V × Table t host)
  unfolding load_object
  decrement m none = do
    ei ← or_failure (host.db_end m.store) table_is_empty
    prev_itr ← or_failure (host.db_previous m.store ei) table_is_empty
    load_object t host m prev_itr
  decrement m (some i) = do
    prev_itr ← or_failure (host.db_previous m.store i.primary_itr) at_beginning
    load_object t host m prev_itr

  -- The key after that of the last row.
  unfoldable pub next_of_last : Item V × Table t host → Result Failure (Table t host)
  next_of_last (last, m) =
      let pk = t.primary_key last.obj in
      ok (record m {
        next_primary_key =
            if leb no_available_primary_key pk then no_available_primary_key else pk + 1;
      })

  unfoldable pub next_of_first : Option (Item V) × Table t host → Result Failure (Table t host)
  unfolding decrement next_of_last
  next_of_first (none, m) = ok (record m { next_primary_key = 0 })
  next_of_first (some i, m) = decrement m none >>= λ r. next_of_last r

  -- The first call of `available_primary_key`.
  unfoldable pub find_next_primary_key : Table t host → Result Failure (Table t host)
  unfolding begin next_of_first
  find_next_primary_key m = begin m >>= λ r. next_of_first r

  unfoldable pub available_primary_key : Table t host → Result Failure (ℕ × Table t host)
  unfolding find_next_primary_key
  available_primary_key m = do
    m' ← if m.next_primary_key == unset_next_primary_key then find_next_primary_key m else ok m
    check (ltb m'.next_primary_key no_available_primary_key) autoincrement_limit
    ok (m'.next_primary_key, m')

  -- `modify` at an iterator.
  unfoldable pub modify_at :
      Table t host → Option (Item V) → (V → V) → Result Failure (Table t host)
  unfolding modify ref_to
  modify_at m none updater = err cannot_pass_end
  modify_at m (some i) updater = modify t host m (ref_to t host m i) updater

  -- `erase` at an iterator, with the iterator that follows.
  unfoldable pub erase_at :
      Table t host → Option (Item V) → Result Failure (Option (Item V) × Table t host)
  unfolding increment erase ref_to
  erase_at m none = err cannot_pass_end
  erase_at m (some i) = do
    (following, m₁) ← increment m (some i)
    m₂ ← erase t host m₁ (ref_to t host m₁ i)
    ok (following, m₂)
