-- ===== src/MultiIndex.antt =====
-- `multi_index` of contracts/eosio/multi_index.hpp: a table of rows by primary key, with a cache of the
-- rows that were read and secondary indices that every change of a row keeps up to date.
pub mod Host
pub mod Order
pub mod Iterator
pub mod Consistency
pub mod Find
pub mod Reach
pub mod NextKey
pub mod FreeKey
pub mod Secondary
mod MapHost
mod MapLaws
pub mod FindLast
pub mod Rounds
pub mod Replace
pub mod Change
pub mod Emplace
pub mod Modify
pub mod Erase
pub mod Singleton
mod Tests
use taurus_cdt.Prelude.{
  ℕ, zero, suc, ◌+◌, ◌-◌, ◌^◌, ◌≡◌, List, [], ◌∷◌, ◌++◌, Bool, true, false, not, ◌==◌, leb, ltb,
  if◌then◌else◌, Option, none, some, Result, ok, err, ◌>>=◌, ◌>>◌, check,
}
use taurus_cdt.MultiIndex.Host.{Bytes, DbHost, handle_of}

pub data Failure : Type 0 where
  error_reading_iterator stream_error other_contract not_in_multi_index end_iterator
        dangling_reference key_changed unable_to_find_key not_cached aborted_by_host
        cannot_increment_end table_is_empty at_beginning autoincrement_limit cannot_pass_end
        unable_to_find_secondary_key singleton_does_not_exist :
      Failure

-- The row type and the indices.
pub record Schema (V Key : Type 0) : Type 0 where
  pub primary_key : V → ℕ
  -- `extract_secondary_key` of each index, in the order of their numbers.
  pub extractors : List (V → Key)
  pub pack : V → Bytes
  pub unpack : Bytes → Option V
  -- The `memcmp` of two secondary keys.
  pub same : Key → Key → Bool

pub record Lawful {V Key : Type 0} (t : Schema V Key) : Type 0 where
  pub unpack-pack : (v : V) → t.unpack (t.pack v) ≡ some v
  pub same_eq : (x y : Key) → t.same x y ≡ true → x ≡ y

pub record Item (V : Type 0) : Type 0 where
  pub obj : V
  pub primary_itr : ℕ
  -- `none` is -1.
  pub iters : ℕ → Option ℕ

-- A reference to a row in the cache of a table: `__idx`, and which item it is.
pub record Ref : Type 0 where
  pub idx : ℕ
  pub itr : ℕ

abbrev pub no_available_primary_key : ℕ
no_available_primary_key = 2 ^ 64 - 2

abbrev pub unset_next_primary_key : ℕ
unset_next_primary_key = 2 ^ 64 - 1

-- `std::find_if` from `rbegin()`: the last element that passes the test.
unfoldable pub find_last {ℓ} : {A : Type ℓ} → (A → Bool) → List A → Option A
find_last p [] = none
find_last p (x ∷ xs) = elim (find_last p xs) [
  | some y ↦ some y
  | none ↦ if p x then some x else none
]

abbrev pub or_failure {ℓ} : {A : Type ℓ} → Option A → Failure → Result Failure A
or_failure none e = err e
or_failure (some a) e = ok a

module _ {V Key : Type 0} (t : Schema V Key) (host : DbHost Key) where
  open host use {Store}

  -- The members of a table object, with its address and the host's state. `_code`, `_scope` and the
  -- table's name are those of the host's calls.
  pub record Table : Type 0 where
    pub this : ℕ
    pub code : ℕ
    pub items : List (Item V)
    pub next_primary_key : ℕ
    pub store : Store

  unfoldable pub construct : ℕ → ℕ → Store → Table
  construct this code s = record {
    this = this;
    code = code;
    items = [];
    next_primary_key = unset_next_primary_key;
    store = s;
  }

  abbrev pub item_at : List (Item V) → ℕ → Option (Item V)
  item_at items itr = find_last (λ (i : Item V). i.primary_itr == itr) items

  abbrev pub item_of_key : List (Item V) → ℕ → Option (Item V)
  item_of_key items primary = find_last (λ (i : Item V). t.primary_key i.obj == primary) items

  unfoldable pub push_item : Table → Item V → Table
  push_item m i = record m { items = m.items ++ i ∷ [] }

  -- `load_object_by_primary_iterator`
  unfoldable pub load_object : Table → ℕ → Result Failure (Item V × Table)
  unfolding push_item find_last
  load_object m itr = elim (item_at m.items itr) [
    | some i ↦ ok (i, m)
    | none ↦ do
      bytes ← or_failure (host.db_get m.store itr) error_reading_iterator
      v ← or_failure (t.unpack bytes) stream_error
      let i : Item V = record { obj = v; primary_itr = itr; iters = λ n. none }
      ok (i, push_item m i)
  ]

  -- What follows when the cache has no such row.
  unfoldable pub find_stored : Table → ℕ → Result Failure (Option (Item V) × Table)
  unfolding load_object
  find_stored m primary = elim (handle_of (host.lookup m.store primary)) [
    | none ↦ ok (none, m)
    | some itr ↦ do (i, m') ← load_object m itr; ok (some i, m')
  ]

  -- `find`: `none` is the end iterator.
  unfoldable pub find : Table → ℕ → Result Failure (Option (Item V) × Table)
  unfolding find_stored find_last
  find m primary = elim (item_of_key m.items primary) [
    | some i ↦ ok (some i, m)
    | none ↦ find_stored m primary
  ]

  unfoldable pub get : Table → ℕ → Result Failure (Item V × Table)
  unfolding find
  get m primary = do
    (found, m') ← find m primary
    i ← or_failure found unable_to_find_key
    ok (i, m')

  unfoldable pub require_find : Table → ℕ → Result Failure (Item V × Table)
  unfolding load_object find_last
  require_find m primary = elim (item_of_key m.items primary) [
    | some i ↦ ok (i, m)
    | none ↦ do
      itr ← or_failure (handle_of (host.lookup m.store primary)) unable_to_find_key
      load_object m itr
  ]

  unfoldable pub ref_to : Table → Item V → Ref
  ref_to m i = record { idx = m.this; itr = i.primary_itr }

  -- The update of `_next_primary_key` in `emplace` and `modify`.
  unfoldable pub next_after : ℕ → ℕ → ℕ
  next_after pk next =
      if leb next pk
      then (if leb no_available_primary_key pk then no_available_primary_key else pk + 1)
      else next

  -- The iterators of an item, and the store: what the loops over the indices change.
  abbrev pub Indexed : Type 0
  Indexed = (ℕ → Option ℕ) × Store

  abbrev pub with_iter : (ℕ → Option ℕ) → ℕ → Option ℕ → ℕ → Option ℕ
  with_iter iters n g m = if m == n then g else iters m

  -- `hana::for_each( _indices, step )`
  unfoldable pub for_each :
      (ℕ → (V → Key) → Indexed → Result Failure Indexed)
      → ℕ
      → List (V → Key)
      → Indexed
      → Result Failure Indexed
  for_each step n [] x = ok x
  for_each step n (e ∷ es) x = step n e x >>= λ y. for_each step (suc n) es y

  unfoldable pub store_index : V → ℕ → (V → Key) → Indexed → Result Failure Indexed
  store_index obj n e (iters, s) = do
    (g, s') ← or_failure (host.idx_store s n (t.primary_key obj) (e obj)) aborted_by_host
    ok (with_iter iters n (some g), s')

  -- `emplace`, of the object that the constructor makes.
  unfoldable pub emplace : Table → V → Result Failure (Item V × Table)
  unfolding next_after for_each store_index push_item
  emplace m obj = do
    let pk = t.primary_key obj
    check (m.code == host.current_receiver) other_contract
    (itr, s) ← or_failure (host.db_store m.store pk (t.pack obj)) aborted_by_host
    (iters, s') ← for_each (store_index obj) 0 t.extractors (λ n. none, s)
    let i : Item V = record { obj = obj; primary_itr = itr; iters = iters }
    ok (
      i,
      push_item (record m { store = s'; next_primary_key = next_after pk m.next_primary_key }) i,
    )

  -- The handle that the item has, or that the host finds.
  abbrev pub known_iter : (ℕ → Option ℕ) → Store → ℕ → ℕ → Option ℕ
  known_iter iters s n pk = elim (iters n) [ some g ↦ some g | none ↦ handle_of (host.sec s n pk) ]

  unfoldable pub update_index : V → V → ℕ → (V → Key) → Indexed → Result Failure Indexed
  update_index old obj n e (iters, s) =
      let pk = t.primary_key old in
      if t.same (e old) (e obj) then ok (iters, s) else (do
        g ← or_failure (known_iter iters s n pk) aborted_by_host
        s' ← or_failure (host.idx_update s n g (e obj)) aborted_by_host
        ok (with_iter iters n (some g), s'))

  unfoldable pub set_item : List (Item V) → ℕ → Item V → List (Item V)
  set_item [] itr i = []
  set_item (x ∷ xs) itr i = (if x.primary_itr == itr then i else x) ∷ set_item xs itr i

  -- The item that a reference stands for.
  unfoldable pub checked_item : Table → Ref → Result Failure (Item V)
  unfolding find_last
  checked_item m r = do
    check (r.idx == m.this) not_in_multi_index
    or_failure (item_at m.items r.itr) dangling_reference

  -- `modify`, of a row in the cache.
  unfoldable pub modify : Table → Ref → (V → V) → Result Failure Table
  unfolding checked_item next_after for_each update_index set_item
  modify m r updater = do
    i ← checked_item m r
    check (m.code == host.current_receiver) other_contract
    let pk = t.primary_key i.obj
    let obj = updater i.obj
    check (pk == t.primary_key obj) key_changed
    s ← or_failure (host.db_update m.store i.primary_itr (t.pack obj)) aborted_by_host
    (iters, s') ← for_each (update_index i.obj obj) 0 t.extractors (i.iters, s)
    let i' : Item V = record { obj = obj; primary_itr = i.primary_itr; iters = iters }
    ok (record m {
      items = set_item m.items i.primary_itr i';
      next_primary_key = next_after pk m.next_primary_key;
      store = s';
    })

  unfoldable pub remove_index : ℕ → ℕ → (V → Key) → Indexed → Result Failure Indexed
  remove_index pk n e (iters, s) = elim (known_iter iters s n pk) [
    | none ↦ ok (iters, s)
    | some g ↦ do s' ← or_failure (host.idx_remove s n g) aborted_by_host; ok (iters, s')
  ]

  -- `_items_vector.erase( --(itr2.base()) )`: the last item with the key.
  unfoldable pub erase_item : List (Item V) → ℕ → List (Item V)
  unfolding find_last
  erase_item [] primary = []
  erase_item (x ∷ xs) primary =
      let rest = erase_item xs primary in
      elim (item_of_key xs primary) [
        | some y ↦ x ∷ rest
        | none ↦ if t.primary_key x.obj == primary then xs else x ∷ xs
      ]

  -- `erase`, of a row in the cache.
  unfoldable pub erase : Table → Ref → Result Failure Table
  unfolding checked_item for_each remove_index erase_item
  erase m r = do
    i ← checked_item m r
    check (m.code == host.current_receiver) other_contract
    let pk = t.primary_key i.obj
    cached ← or_failure (item_of_key m.items pk) not_cached
    s ← or_failure (host.db_remove m.store i.primary_itr) aborted_by_host
    (iters, s') ← for_each (remove_index pk) 0 t.extractors (i.iters, s)
    ok (record m { items = erase_item m.items pk; store = s' })
