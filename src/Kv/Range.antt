-- ===== src/Kv/Range.antt =====
-- `index::range` of contracts/eosio/kv.hpp.
use taurus_cdt.Prelude.{
  ℕ, zero, suc, ◌<◌, ◌≡◌, ◌≢◌, refl, sym, ◌∙◌, subst, List, [], ◌∷◌, Option, none, some, true,
  false, ok, length, arith, map,
}
use taurus_cdt.Kv.Keys.{Bytes}
use taurus_cdt.Kv.Host.{KvHost}
use taurus_cdt.Kv.Listing
use taurus_cdt.Kv.Cursors.{
  Status, iterator_ok, Sign, negative, equal, positive, KvCursors, First, Lt, CursorLaws,
}
use taurus_cdt.Kv.Table.{Index, Schema, make_prefix}
use taurus_cdt.Kv.Iterator.{
  is_negative, Iterator, row_of, value, compare, at_cursor, increment, lower_bound, range_loop,
  range,
}

not_negative : (c : Sign) → (c ≡ negative → ⊥) → is_negative c ≡ false
not_negative negative n = absurd (n refl)
not_negative equal n = refl
not_negative positive n = refl

module _ {V : Type 0} (t : Schema V) (host : KvHost) (cursors : KvCursors host)
    (laws : CursorLaws cursors) (i : Index V) (s : host.Store) where
  open host use {kv_get}
  open cursors use {
    Cursor, kv_it_create, kv_it_lower_bound, kv_it_next, kv_it_compare, prefix_of, stands, Le,
  }

  abbrev p : Bytes
  p = make_prefix t i.name

  -- The key is in use, and the row for its bytes has the value.
  pub record Row (k : Bytes) (v : V) : Type 0 where
    pub bytes : Bytes
    pub stored : kv_get s k ≡ some bytes
    pub row : row_of t host cursors i s bytes ≡ ok v

  Row-used : (k : Bytes) (v : V) → Row k v → kv_get s k ≢ none
  Row-used k v w e = let u : none ≡ some w.bytes = sym e ∙ w.stored in cc

  -- A host's iterator of the index that came to the first key of a range.
  record Stands (From : Bytes → Type 0) (r : Status × Cursor) : Type 0 where
    of_index : prefix_of r.1 ≡ p
    first : First cursors s p Le From r.0 (stands r.1)

  abbrev bound : Bytes → Status × Cursor
  bound k = kv_it_lower_bound s (kv_it_create p) k

  bound-Stands : (k : Bytes) → Stands (λ j. Le k j) (bound k)
  bound-Stands k = record {
    of_index = laws.prefix-lower_bound s (kv_it_create p) k ∙ laws.prefix-create p;
    first =
        subst (λ q. First cursors s q Le (λ j. Le k j) (bound k).0 (stands (bound k).1))
          (laws.prefix-create p) (laws.lower s (kv_it_create p) k);
  }

  abbrev next_of : Status × Cursor → Status × Cursor
  next_of r = kv_it_next s r.1

  next-Stands :
      (r : Status × Cursor) (k : Bytes)
      → prefix_of r.1 ≡ p
      → stands r.1 ≡ some k
      → kv_get s k ≢ none
      → Stands (λ j. Lt cursors k j) (next_of r)
  next-Stands r k e at n = record {
    of_index = laws.prefix-next s r.1 ∙ e;
    first =
        subst (λ q. First cursors s q Le (λ j. Lt cursors k j) (next_of r).0 (stands (next_of r).1))
          e (laws.next s r.1 k at n);
  }

  abbrev it : Status × Cursor → Iterator t host cursors i
  it r = at_cursor t host cursors i r

  -- Before the bound: the loop goes on.
  goes_on :
      (a b : Status × Cursor) (o : Option Bytes) (k hk : Bytes)
      → a.0 ≡ iterator_ok
      → stands a.1 ≡ some k
      → Lt cursors k hk
      → First cursors s p Le (λ j. Le hk j) b.0 o
      → stands b.1 ≡ o
      → is_negative (compare t host cursors i (it a) (it b)) ≡ true
  unfolding compare at_cursor
  goes_on a b none k hk st at lt f e = rw (st, f.0) refl
  goes_on a b (some k') k hk st at lt f e =
      let l = Listing.before_bound cursors laws s p Row hk k k' b.0 lt f in
      rw (st, f.0, (laws.compare_less a.1 b.1 k k' at e).1 l) refl

  -- At or after it: the loop ends.
  stops :
      (a b : Status × Cursor) (o o' : Option Bytes) (hk : Bytes) (From : Bytes → Type 0)
      → Listing.Lists cursors laws s p Row hk From []
      → First cursors s p Le From a.0 o
      → First cursors s p Le (λ j. Le hk j) b.0 o'
      → stands a.1 ≡ o
      → stands b.1 ≡ o'
      → is_negative (compare t host cursors i (it a) (it b)) ≡ false
  unfolding compare at_cursor
  stops a b none none hk From l f g e e' = rw (f.0, g.0) refl
  stops a b none (some k') hk From l f g e e' = rw (f.0, g.0) refl
  stops a b (some k) none hk From l f g e e' =
      absurd (Listing.bound_past cursors laws s p Row hk From a.0 b.0 k l f g)
  stops a b (some k) (some k') hk From l f g e e' =
      let m = Listing.not_before cursors laws s p Row hk From a.0 b.0 k k' l f g in
      rw (f.0, g.0)
        (not_negative (kv_it_compare a.1 b.1) λ q.
          Listing.not_above cursors laws s p Row k k' ((laws.compare_less a.1 b.1 k k' e e').0 q) m)

  value-Row :
      (r : Status × Cursor) (k : Bytes) (v : V)
      → r.0 ≡ iterator_ok
      → stands r.1 ≡ some k
      → Row k v
      → value t host cursors i s (it r) ≡ ok v
  unfolding value at_cursor
  value-Row r k v st at w = rw (st, laws.reads s r.1 k w.bytes at w.stored) w.row

  increment-ok :
      (r : Status × Cursor)
      → r.0 ≡ iterator_ok
      → increment t host cursors i s (it r) ≡ ok (it (next_of r))
  unfolding increment at_cursor
  increment-ok r st = rw st refl

  abbrev values : List (Bytes × V) → List V
  values l = map (λ q. q.1) l

  range_loop-Lists :
      (n : ℕ) (From : Bytes → Type 0) (r : Status × Cursor) (hk : Bytes) (l : List (Bytes × V))
      → length l < n
      → Stands From r
      → Listing.Lists cursors laws s p Row hk From l
      → range_loop t host cursors i n s (it r) (it (bound hk)) ≡ ok (values l)
  unfolding range_loop
  range_loop-Lists zero From r hk l m w ls = absurd (omega (arith, m))
  range_loop-Lists (suc n) From r hk [] m w ls =
      rw
        (stops r (bound hk) (stands r.1) (stands (bound hk).1) hk From ls w.first
          (bound-Stands hk).first refl refl)
        refl
  range_loop-Lists (suc n) From r hk ((k, v) ∷ l) m w (x, u, f, b, least, others) =
      let (at, st) =
        Listing.at_next cursors laws s p Row hk From r.0 (stands r.1) k v l (Row-used k v x)
          (x, u, f, b, least, others) w.first in
      let d =
        goes_on r (bound hk) (stands (bound hk).1) k hk st at b (bound-Stands hk).first refl in
      let rest =
        range_loop-Lists n (λ j. Lt cursors k j) (next_of r) hk l (omega (arith, m))
          (next-Stands r k w.of_index at (Row-used k v x)) others in
      rw (d, value-Row r k v st at x, increment-ok r st, rest) refl

  -- With a round more than there are keys, `range( b, e )` returns the rows of a list of the keys of the index from `b` on
  -- and below `e`, in increasing order; where `e` is not above `b` the list is empty.
  pub range-Lists :
      (b e : Bytes) (ks : List (Bytes × V))
      → Listing.Lists cursors laws s p Row e (λ j. Le b j) ks
      → range t host cursors i (suc (length ks)) s b e ≡ ok (values ks)
  unfolding range lower_bound
  range-Lists b e ks w =
      range_loop-Lists (suc (length ks)) (λ j. Le b j) (bound b) e ks (omega arith) (bound-Stands b)
        w
