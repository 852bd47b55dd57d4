-- ===== src/Map/Iterator.antt =====
-- The iterators of libraries/eosiolib/contracts/eosio/map.hpp and the functions of `map` that return them. A
-- cursor stands for the handle; two iterators of one handle stand at one place, so `operator==` need not compare
-- the handles. Moved-from iterators and the destruction of the host's iterators are left out.
use taurus_cdt.Prelude.{
  ℕ, zero, suc, ◌+◌, ◌%◌, List, [], ◌∷◌, Bool, not, ◌||◌, ◌&&◌, leb, ltb, if◌then◌else◌, Result, ok,
  err, ◌>>=◌, ◌>>◌, check,
}
use mathlib.Core.List.{reverse}
use taurus_cdt.Kv.Keys.{Bytes}
use taurus_cdt.Kv.Host.{KvHost}
use taurus_cdt.Kv.Cursors.{Status, iterator_ok, KvCursors}
use taurus_cdt.Kv.Iterator.{is_end, is_ok, is_equal}
use taurus_cdt.Map.{
  Failure, incrementing_past_end, decrementing_past_end, failure_getting_key, failure_getting_value,
  before_the_key, out_of_rounds, MapType, Elem, self_prefix, full_key, unpacked,
}

-- The loop of `increment_bytes`, from the last byte back: a byte is signed, and `v` is its successor in 16 bits.
unfoldable pub increment_back : Bytes → Result Failure Bytes
increment_back [] = err before_the_key
increment_back (b ∷ bs) =
    let v = if ltb b 128 then b + 1 else (b + 65280 + 1) % 65536 in
    let rest = increment_back bs in
    if leb v 255 then ok ((v % 256) ∷ bs) else rest >>= λ bs'. ok ((v % 256) ∷ bs')

-- `increment_bytes`. The loop reads on before the first byte.
unfoldable pub increment_bytes : Bytes → Result Failure Bytes
unfolding increment_back
increment_bytes k = increment_back (reverse k) >>= λ bs. ok (reverse bs)

module _ {K V : Type 0} (t : MapType K V) (host : KvHost) (cursors : KvCursors host) where
  open host use {Store}
  open cursors use {
    Cursor, kv_it_create, kv_it_lower_bound, kv_it_next, kv_it_prev, kv_it_move_to_end,
    kv_it_compare, kv_it_key_compare, kv_it_value, kv_it_key,
  }

  pub record Iterator : Type 0 where
    pub handle : Cursor
    pub current_status : Status

  unfoldable pub is_valid : Iterator → Bool
  is_valid it = is_ok it.current_status

  -- The status and the cursor after a call of the host.
  abbrev pub moved : Status × Cursor → Iterator
  moved (st, c) = record { handle = c; current_status = st }

  -- `iterator( owner )`
  unfoldable pub create : Iterator
  create = record { handle = kv_it_create (self_prefix t); current_status = iterator_ok }

  unfoldable pub seek_to_begin : Store → Iterator → Iterator
  seek_to_begin s it = moved (kv_it_lower_bound s it.handle [])

  unfoldable pub seek_to_end : Store → Iterator → Iterator
  seek_to_end s it = moved (kv_it_move_to_end s it.handle)

  unfoldable pub seek_to_last : Store → Iterator → Iterator
  seek_to_last s it = moved (kv_it_prev s (kv_it_move_to_end s it.handle).1)

  -- `iterator::lower_bound`
  unfoldable pub seek_lower_bound : Store → Iterator → Bytes → Iterator
  seek_lower_bound s it k = moved (kv_it_lower_bound s it.handle k)

  -- `iterator::find`
  unfoldable pub seek : Store → Iterator → Bytes → Iterator
  unfolding seek_lower_bound seek_to_end
  seek s it k =
      let it' = seek_lower_bound s it k in
      if not (is_equal (kv_it_key_compare it'.handle k)) then seek_to_end s it' else it'

  -- The end of the operators: a move past the last element.
  abbrev pub settle : Store → Iterator → Iterator
  settle s it = if is_end it.current_status then seek_to_end s it else it

  -- `operator++`
  unfoldable pub increment : Store → Iterator → Result Failure Iterator
  unfolding seek_to_end
  increment s it =
      check (is_ok it.current_status) incrementing_past_end
      >> ok (settle s (moved (kv_it_next s it.handle)))

  -- `operator++` of a reverse iterator.
  unfoldable pub reverse_increment : Store → Iterator → Result Failure Iterator
  unfolding seek_to_end
  reverse_increment s it =
      let it' = moved (kv_it_prev s it.handle) in
      check (is_ok it'.current_status) incrementing_past_end >> ok (settle s it')

  -- `operator--`
  unfoldable pub decrement : Store → Iterator → Result Failure Iterator
  unfolding seek_to_end
  decrement s it =
      let it' = moved (kv_it_prev s it.handle) in
      check (is_ok it'.current_status) decrementing_past_end >> ok (settle s it')

  -- `operator--` of a reverse iterator.
  unfoldable pub reverse_decrement : Store → Iterator → Result Failure Iterator
  unfolding seek_to_end
  reverse_decrement s it =
      check (is_ok it.current_status) decrementing_past_end
      >> ok (settle s (moved (kv_it_next s it.handle)))

  -- `operator==`
  unfoldable pub same : Iterator → Iterator → Bool
  same a b =
      (is_end a.current_status && is_end b.current_status)
      || is_equal (kv_it_compare a.handle b.handle)

  unfoldable pub materialize : Store → Iterator → Result Failure (Elem V)
  unfolding unpacked
  materialize s it =
      let k = kv_it_key s it.handle in
      let v = kv_it_value s it.handle in
      check (is_ok k.0) failure_getting_key
      >> (check (is_ok v.0) failure_getting_value
          >> (unpacked t host v.1 >>= λ x. ok (record { key = k.1; value = x })))

  unfoldable pub begin : Store → Iterator
  unfolding create seek_to_begin
  begin s = seek_to_begin s create

  unfoldable pub end : Store → Iterator
  unfolding create seek_to_end
  end s = seek_to_end s create

  unfoldable pub rbegin : Store → Iterator
  unfolding create seek_to_last
  rbegin s = seek_to_last s create

  unfoldable pub rend : Store → Iterator
  unfolding end
  rend s = end s

  unfoldable pub empty : Store → Bool
  unfolding create seek_lower_bound end same
  empty s = same (seek_lower_bound s create []) (end s)

  unfoldable pub find : Store → K → Iterator
  unfolding create seek full_key
  find s k = seek s create (full_key t k)

  unfoldable pub lower_bound : Store → K → Iterator
  unfolding create seek_lower_bound full_key
  lower_bound s k = seek_lower_bound s create (full_key t k)

  unfoldable pub upper_bound : Store → K → Result Failure Iterator
  unfolding create seek_lower_bound full_key increment_bytes
  upper_bound s k = increment_bytes (full_key t k) >>= λ fk. ok (seek_lower_bound s create fk)

  unfoldable pub equal_range : Store → K → Result Failure (Iterator × Iterator)
  unfolding lower_bound upper_bound
  equal_range s k = upper_bound s k >>= λ u. ok (lower_bound s k, u)

  -- The loop of `ranged_slice`, in at most so many rounds.
  unfoldable pub slice : ℕ → Store → Iterator → K → Result Failure (List (Elem V))
  unfolding lower_bound same materialize increment
  slice zero s it h = err out_of_rounds
  slice (suc n) s it h =
      let rest = increment s it >>= λ it'. slice n s it' h in
      if not (same it (lower_bound s h))
      then (materialize s it >>= λ e. rest >>= λ es. ok (e ∷ es))
      else ok []

  unfoldable pub ranged_slice : ℕ → Store → K → K → Result Failure (List (Elem V))
  unfolding lower_bound slice
  ranged_slice n s l h = slice n s (lower_bound s l) h
