-- ===== src/Kv/Iterator.antt =====
-- The iterators and the class `index` of contracts/eosio/kv.hpp. `itr` is `none` where it is 0; the destruction
-- of the host's iterators is left out.
use taurus_cdt.Prelude.{
  ℕ, zero, suc, List, [], ◌∷◌, Option, none, some, Bool, true, false, not, ◌==◌, if◌then◌else◌,
  Result, ok, err, ◌>>=◌, ◌>>◌, check,
}
use taurus_cdt.Kv.Keys.{Bytes}
use taurus_cdt.Kv.Host.{KvHost}
use taurus_cdt.Kv.Cursors.{
  Status, iterator_ok, iterator_erased, iterator_end, Sign, negative, equal, positive, KvCursors,
}
use taurus_cdt.Kv.Table.{Failure, no_primary_row, Index, Schema, make_prefix, deserialize, get}

-- The failures of the iterators, beside those of the table.
pub data IteratorFailure : Type 0 where
  cannot_read_end error_reading_value error_getting_key cannot_increment_end past_the_beginning
        past_the_end key_not_found out_of_rounds :
      IteratorFailure
  in_table : Failure → IteratorFailure

abbrev pub is_end : Status → Bool
is_end iterator_ok = false
is_end iterator_erased = false
is_end iterator_end = true

abbrev pub is_ok : Status → Bool
is_ok iterator_ok = true
is_ok iterator_erased = false
is_ok iterator_end = false

abbrev pub is_equal : Sign → Bool
is_equal negative = false
is_equal equal = true
is_equal positive = false

abbrev pub is_negative : Sign → Bool
is_negative negative = true
is_negative equal = false
is_negative positive = false

abbrev pub from_table {ℓ} : {A : Type ℓ} → Result Failure A → Result IteratorFailure A
from_table (ok a) = ok a
from_table (err e) = err (in_table e)

module _ {V : Type 0} (t : Schema V) (host : KvHost) (cursors : KvCursors host) (i : Index V) where
  open host use {Store, kv_get}
  open cursors use {
    Cursor, kv_it_create, kv_it_lower_bound, kv_it_next, kv_it_prev, kv_it_compare,
    kv_it_key_compare, kv_it_value, kv_it_key,
  }

  pub record Iterator : Type 0 where
    pub itr : Option Cursor
    pub itr_stat : Status

  unfoldable pub good : Iterator → Bool
  good it = not (is_end it.itr_stat)

  -- The bytes of the row, for the value or the primary key that the iterator read.
  unfoldable pub row_of : Store → Bytes → Result IteratorFailure V
  unfolding deserialize
  row_of s bytes =
      if not (i.name == t.primary.name)
      then (elim (kv_get s bytes) [
        | none ↦ err (in_table no_primary_row)
        | some row ↦ from_table (deserialize t row)
      ])
      else from_table (deserialize t bytes)

  -- `iterator_base::value`. An iterator of 0 is at the end.
  unfoldable pub value : Store → Iterator → Result IteratorFailure V
  unfolding row_of
  value s it = elim it.itr [
    | none ↦ err cannot_read_end
    | some c ↦ do
      check (not (is_end it.itr_stat)) cannot_read_end
      let (stat, bytes) = kv_it_value s c
      check (is_ok stat) error_reading_value
      row_of s bytes
  ]

  -- `iterator_base::key`
  unfoldable pub key : Store → Cursor → Result IteratorFailure Bytes
  key s c = check (is_ok (kv_it_key s c).0) error_getting_key >> ok (kv_it_key s c).1

  -- The host's iterator, unless the position is the end.
  unfoldable pub live : Iterator → Option Cursor
  live it = if is_end it.itr_stat then none else it.itr

  -- `iterator_base::compare`
  unfoldable pub compare_live : Option Cursor → Option Cursor → Sign
  compare_live none none = equal
  compare_live none (some b) = positive
  compare_live (some a) none = negative
  compare_live (some a) (some b) = kv_it_compare a b

  unfoldable pub compare : Iterator → Iterator → Sign
  unfolding live compare_live
  compare a b = compare_live (live a) (live b)

  unfoldable pub at_cursor : Status × Cursor → Iterator
  at_cursor (st, c) = record { itr = some c; itr_stat = st }

  unfoldable pub end : Iterator
  end = record { itr = none; itr_stat = iterator_end }

  -- `iterator::operator++`
  unfoldable pub increment : Store → Iterator → Result IteratorFailure Iterator
  unfolding at_cursor
  increment s it = elim it.itr [
    | none ↦ err cannot_increment_end
    | some c ↦
        check (not (is_end it.itr_stat)) cannot_increment_end >> ok (at_cursor (kv_it_next s c))
  ]

  -- The position, which must not be the end.
  abbrev pub within : Status × Cursor → Result IteratorFailure Iterator
  within (st, c) =
      check (not (is_end st)) past_the_beginning >> ok (record { itr = some c; itr_stat = st })

  -- `iterator::operator--`
  unfoldable pub decrement : Store → Iterator → Result IteratorFailure Iterator
  unfolding make_prefix
  decrement s it = elim it.itr [
    | none ↦ within (kv_it_prev s (kv_it_create (make_prefix t i.name)))
    | some c ↦ within (kv_it_prev s c)
  ]

  -- `reverse_iterator::operator++`
  unfoldable pub reverse_increment : Store → Iterator → Result IteratorFailure Iterator
  unfolding at_cursor
  reverse_increment s it = elim it.itr [
    | none ↦ err past_the_end
    | some c ↦ check (not (is_end it.itr_stat)) past_the_end >> ok (at_cursor (kv_it_prev s c))
  ]

  -- `reverse_iterator::operator--`
  unfoldable pub reverse_decrement : Store → Iterator → Result IteratorFailure Iterator
  unfolding make_prefix
  reverse_decrement s it = elim it.itr [
    | none ↦ within (kv_it_next s (kv_it_lower_bound s (kv_it_create (make_prefix t i.name)) []).1)
    | some c ↦ within (kv_it_next s c)
  ]

  unfoldable pub key_compare : Iterator → Bytes → Sign
  unfolding live
  key_compare it k = elim (live it) [ none ↦ positive | some c ↦ kv_it_key_compare c k ]

  -- `index::lower_bound`, of a full key.
  unfoldable pub lower_bound : Store → Bytes → Iterator
  unfolding at_cursor make_prefix
  lower_bound s k = at_cursor (kv_it_lower_bound s (kv_it_create (make_prefix t i.name)) k)

  unfoldable pub begin : Store → Iterator
  unfolding lower_bound
  begin s = lower_bound s []

  unfoldable pub rbegin : Store → Iterator
  unfolding at_cursor make_prefix
  rbegin s = at_cursor (kv_it_prev s (kv_it_create (make_prefix t i.name)))

  unfoldable pub upper_bound : Store → Bytes → Result IteratorFailure Iterator
  unfolding lower_bound key_compare increment
  upper_bound s k =
      let it = lower_bound s k in if is_equal (key_compare it k) then increment s it else ok it

  -- `index::find`, of a full key.
  unfoldable pub find : Store → Bytes → Iterator
  unfolding at_cursor make_prefix end
  find s k =
      let r = kv_it_lower_bound s (kv_it_create (make_prefix t i.name)) k in
      if is_equal (kv_it_key_compare r.1 k) then at_cursor r else end

  unfoldable pub exists : Store → Bytes → Bool
  exists s k = elim (kv_get s k) [ none ↦ false | some b ↦ true ]

  -- `index::operator[]`
  unfoldable pub at : Store → Bytes → Result IteratorFailure V
  unfolding get
  at s k =
      from_table (get t host s i k) >>= λ opt. elim opt [ none ↦ err key_not_found | some v ↦ ok v ]

  -- The loop of `index::range`, in at most so many rounds.
  unfoldable pub range_loop : ℕ → Store → Iterator → Iterator → Result IteratorFailure (List V)
  unfolding compare value increment
  range_loop zero s it last = err out_of_rounds
  range_loop (suc n) s it last =
      let rest = increment s it >>= λ it'. range_loop n s it' last in
      if is_negative (compare it last)
      then (value s it >>= λ v. rest >>= λ vs. ok (v ∷ vs))
      else ok []

  -- `index::range`, of full keys.
  unfoldable pub range : ℕ → Store → Bytes → Bytes → Result IteratorFailure (List V)
  unfolding range_loop lower_bound
  range n s b e = range_loop n s (lower_bound s b) (lower_bound s e)
