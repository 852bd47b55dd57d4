-- ===== src/Kv/Iteration.antt =====
-- The iterators of contracts/eosio/kv.hpp against the reads by key.
mod Tests
use taurus_cdt.Prelude.{
  ℕ, ◌≡◌, ◌≢◌, ◌⊎◌, refl, sym, ap, ◌∙◌, subst, List, [], ◌∷◌, Option, none, some, Option-cases,
  Bool-cases, inl, inr, Bool, true, false, not, ◌==◌, if◌then◌else◌, Result, ok, err, ◌>>=◌, ◌>>◌,
  check,
}
use taurus_cdt.Kv.Keys.{Bytes, full_key}
use taurus_cdt.Kv.Host.{KvHost}
use taurus_cdt.Kv.Cursors.{
  Status, iterator_ok, iterator_end, Sign, negative, equal, positive, KvCursors, First, CursorLaws,
}
use taurus_cdt.Kv.Table.{
  Failure, no_primary_row, Index, Schema, make_prefix, deserialize, get, read_old,
}
use taurus_cdt.Kv.Iterator.{
  IteratorFailure, is_end, is_ok, is_equal, from_table, Iterator, row_of, value, at_cursor, end,
  find,
}

equal-cases :
    (c : Sign) → ((c ≡ equal) × (is_equal c ≡ true)) ⊎ ((c ≢ equal) × (is_equal c ≡ false))
equal-cases negative = inr (λ e. cc, refl)
equal-cases equal = inl (refl, refl)
equal-cases positive = inr (λ e. cc, refl)

module _ {V : Type 0} (t : Schema V) (host : KvHost) (cursors : KvCursors host)
    (laws : CursorLaws cursors) (i : Index V) (s : host.Store) (r : Bytes) where
  open host use {kv_get}
  open cursors use {
    Cursor, kv_it_create, kv_it_lower_bound, kv_it_key_compare, kv_it_value, stands, Le,
  }

  -- A key of the index.
  abbrev k : Bytes
  k = full_key (make_prefix t i.name) r

  abbrev bound : Status × Cursor
  bound = kv_it_lower_bound s (kv_it_create (make_prefix t i.name)) k

  bound-First : First cursors s (make_prefix t i.name) Le (λ j. Le k j) bound.0 (stands bound.1)
  bound-First =
      subst (λ p. First cursors s p Le (λ j. Le k j) bound.0 (stands bound.1))
        (laws.prefix-create (make_prefix t i.name))
        (laws.lower s (kv_it_create (make_prefix t i.name)) k)

  -- A key that is in use is where its lower bound stands.
  stands_at :
      (st : Status) (o : Option Bytes)
      → First cursors s (make_prefix t i.name) Le (λ j. Le k j) st o
      → kv_get s k ≢ none
      → (o ≡ some k) × (st ≡ iterator_ok)
  stands_at st none f n = absurd (n (f.1 r (laws.le_refl k)))
  stands_at st (some j) (e, p, l, under, least) n =
      (ap some (laws.le_antisym j k (least r (laws.le_refl k) n) l), e)

  unused :
      (st : Status) (o : Option Bytes)
      → First cursors s (make_prefix t i.name) Le (λ j. Le k j) st o
      → kv_get s k ≡ none
      → o ≢ some k
  unused st none f n e = cc
  unused st (some j) (q, p, l, under, least) n e = let z : j ≡ k = cc in p (ap (kv_get s) z ∙ n)

  find-none : kv_get s k ≡ none → find t host cursors i s k ≡ end t host cursors i
  unfolding find
  find-none n = elim (equal-cases (kv_it_key_compare bound.1 k)) [
    | inl (e, q) ↦
        absurd (unused bound.0 (stands bound.1) bound-First n ((laws.compare_equal bound.1 k).0 e))
    | inr (e, q) ↦ rw q refl
  ]

  find-some :
      (b : Bytes)
      → kv_get s k ≡ some b
      → (find t host cursors i s k ≡ at_cursor t host cursors i bound)
        × (bound.0 ≡ iterator_ok)
        × (kv_it_value s bound.1 ≡ (iterator_ok, b))
  unfolding find
  find-some b g =
      let (at, st) =
        stands_at bound.0 (stands bound.1) bound-First
          (λ n. let u : none ≡ some b = sym n ∙ g in cc) in
      elim (equal-cases (kv_it_key_compare bound.1 k)) [
        | inl (e, q) ↦ (rw q refl, st, laws.reads s bound.1 k b at g)
        | inr (e, q) ↦ absurd (e ((laws.compare_equal bound.1 k).1 at))
      ]

  -- A read that found a value.
  abbrev pub as_option : Result IteratorFailure V → Result IteratorFailure (Option V)
  as_option (ok v) = ok (some v)
  as_option (err e) = err e

  as_option-row :
      (x : Result Failure V) → as_option (from_table x) ≡ from_table (x >>= λ v. ok (some v))
  as_option-row (ok v) = refl
  as_option-row (err e) = refl

  row_of-get :
      (b : Bytes)
      → kv_get s k ≡ some b
      → as_option (row_of t host cursors i s b) ≡ from_table (get t host s i k)
  unfolding row_of get read_old
  row_of-get b g = elim (Bool-cases (i.name == t.primary.name)) [
    | inl p ↦ rw (get, g, p) (as_option-row (deserialize t b))
    | inr p ↦ elim (Option-cases (kv_get s b)) [
      | inl n ↦ rw (get, g, row_of, p, n) refl
      | inr (row, n) ↦ rw (get, g, row_of, p, n) (as_option-row (deserialize t row))
    ]
  ]

  no_value : kv_get s k ≡ none → get t host s i k ≡ ok none
  unfolding get
  no_value n = rw (get, n) refl

  read_value :
      (b : Bytes)
      → kv_get s k ≡ some b
      → as_option (value t host cursors i s (find t host cursors i s k))
        ≡ from_table (get t host s i k)
  unfolding value at_cursor
  read_value b g = let (f, st, v) = find-some b g in rw (f, st, v) (row_of-get b g)

  -- What a search for a key gives, by what the database has under it.
  abbrev pub Searched : Option Bytes → Type 0
  Searched none = (find t host cursors i s k ≡ end t host cursors i) × (get t host s i k ≡ ok none)
  Searched (some b) =
      as_option (value t host cursors i s (find t host cursors i s k))
      ≡ from_table (get t host s i k)

  -- For any key of an index, and any contents of the database, `find` and the read of its iterator do
  -- what `get` does: where nothing stands under the key, `find` gives the end and `get` no value; else
  -- both read the same value, or fail alike where the row is missing or malformed.
  pub find-get : Searched (kv_get s k)
  find-get = elim (Option-cases (kv_get s k)) [
    | inl n ↦ rw n (find-none n, no_value n)
    | inr (b, g) ↦ rw g (read_value b g)
  ]
