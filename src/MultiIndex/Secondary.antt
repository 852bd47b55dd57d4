-- ===== src/MultiIndex/Secondary.antt =====
-- A secondary index of libraries/eosiolib/contracts/eosio/multi_index.hpp: the struct `index` and its iterators.
-- An iterator is the item that it stands at, or `none` at the end.
pub mod Search
use taurus_cdt.Prelude.{
  ℕ, ◌==◌, not, if◌then◌else◌, Option, none, some, Result, ok, err, ◌>>=◌, ◌>>◌, check,
}
use taurus_cdt.MultiIndex.Host.{DbHost, handle_of}
use taurus_cdt.MultiIndex.Order.{KeyOrder}
use taurus_cdt.MultiIndex.{
  Schema, Failure, not_in_multi_index, dangling_reference, aborted_by_host, cannot_increment_end,
  table_is_empty, at_beginning, cannot_pass_end, unable_to_find_secondary_key, Item, Ref, Table,
  find, or_failure, ref_to, with_iter, known_iter, set_item, modify, erase, checked_item,
}

module _ {V Key : Type 0} (t : Schema V Key) (host : DbHost Key) (o : KeyOrder Key) (number : ℕ)
    (extract : V → Key) where
  -- `mi.__iters[Number] = itr`
  unfoldable pub remember : Table t host → Item V → Option ℕ → Item V × Table t host
  unfolding set_item
  remember m i itr =
      let i' : Item V = record i { iters = with_iter t host i.iters number itr } in
      (i', record m { items = set_item t host m.items i.primary_itr i' })

  -- The entry that the host found: its handle and the primary key. An end iterator of `find` is not
  -- dereferenced.
  unfoldable pub at_entry :
      Table t host → Option (ℕ × ℕ) → Result Failure (Option (Item V) × Table t host)
  unfolding find remember
  at_entry m none = ok (none, m)
  at_entry m (some (itr, primary)) = do
    (found, m') ← find t host m primary
    i ← or_failure found dangling_reference
    let (i', m'') = remember m' i (some itr)
    ok (some i', m'')

  unfoldable pub lower_bound : Table t host → Key → Result Failure (Option (Item V) × Table t host)
  unfolding at_entry
  lower_bound m secondary = at_entry m (host.idx_lowerbound m.store number secondary)

  unfoldable pub upper_bound : Table t host → Key → Result Failure (Option (Item V) × Table t host)
  unfolding at_entry
  upper_bound m secondary = at_entry m (host.idx_upperbound m.store number secondary)

  unfoldable pub begin : Table t host → Result Failure (Option (Item V) × Table t host)
  unfolding lower_bound
  begin m = lower_bound m o.lowest

  -- The lower bound, where its secondary key is this one.
  abbrev pub if_equal : Key → Option (Item V) → Option (Item V)
  if_equal secondary none = none
  if_equal secondary (some i) = if not (o.eqb secondary (extract i.obj)) then none else some i

  unfoldable pub find_secondary :
      Table t host → Key → Result Failure (Option (Item V) × Table t host)
  unfolding lower_bound
  find_secondary m secondary =
      lower_bound m secondary >>= λ (lb, m'). ok (if_equal secondary lb, m')

  unfoldable pub require_find : Table t host → Key → Result Failure (Item V × Table t host)
  unfolding lower_bound
  require_find m secondary = do
    (lb, m') ← lower_bound m secondary
    i ← or_failure lb unable_to_find_secondary_key
    check (o.eqb secondary (extract i.obj)) unable_to_find_secondary_key
    ok (i, m')

  unfoldable pub get_secondary : Table t host → Key → Result Failure (Item V × Table t host)
  unfolding find_secondary
  get_secondary m secondary = do
    (found, m') ← find_secondary m secondary
    i ← or_failure found unable_to_find_secondary_key
    ok (i, m')

  -- The item remembers the handle of its entry, which the host is asked for if it does not.
  unfoldable pub with_entry : Table t host → Item V → Item V × Table t host
  unfolding remember
  with_entry m i = elim (i.iters number) [
    | some g ↦ (i, m)
    | none ↦ remember m i (handle_of (host.sec m.store number (t.primary_key i.obj)))
  ]

  -- `operator++`
  unfoldable pub increment :
      Table t host → Option (Item V) → Result Failure (Option (Item V) × Table t host)
  unfolding with_entry at_entry
  increment m none = err cannot_increment_end
  increment m (some i) = do
    let (i', m') = with_entry m i
    g ← or_failure (i'.iters number) aborted_by_host
    at_entry m' (host.idx_next m'.store number g)

  -- The entry before, which must be.
  unfoldable pub at_previous :
      Table t host → Failure → Option (ℕ × ℕ) → Result Failure (Option (Item V) × Table t host)
  unfolding at_entry
  at_previous m e none = err e
  at_previous m e (some prev) = at_entry m (some prev)

  -- `operator--`
  unfoldable pub decrement :
      Table t host → Option (Item V) → Result Failure (Option (Item V) × Table t host)
  unfolding with_entry at_previous
  decrement m none = do
    ei ← or_failure (host.idx_end m.store number) table_is_empty
    at_previous m table_is_empty (host.idx_previous m.store number ei)
  decrement m (some i) = do
    let (i', m') = with_entry m i
    g ← or_failure (i'.iters number) aborted_by_host
    at_previous m' at_beginning (host.idx_previous m'.store number g)

  -- `iterator_to`, of a reference to a row.
  unfoldable pub iterator_to : Table t host → Ref → Result Failure (Item V × Table t host)
  unfolding checked_item with_entry
  iterator_to m r = do i ← checked_item t host m r; ok (with_entry m i)

  unfoldable pub modify_at :
      Table t host → Option (Item V) → (V → V) → Result Failure (Table t host)
  unfolding modify ref_to
  modify_at m none updater = err cannot_pass_end
  modify_at m (some i) updater = modify t host m (ref_to t host m i) updater

  unfoldable pub erase_at :
      Table t host → Option (Item V) → Result Failure (Option (Item V) × Table t host)
  unfolding increment erase ref_to
  erase_at m none = err cannot_pass_end
  erase_at m (some i) = do
    (following, m₁) ← increment m (some i)
    m₂ ← erase t host m₁ (ref_to t host m₁ i)
    ok (following, m₂)
