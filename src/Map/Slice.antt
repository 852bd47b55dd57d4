-- ===== src/Map/Slice.antt =====
-- `ranged_slice` of libraries/eosiolib/contracts/eosio/map.hpp.
use taurus_cdt.Prelude.{
  ℕ, zero, suc, ◌<◌, ◌≡◌, ◌≢◌, ◌↔◌, refl, sym, ◌∙◌, subst, List, [], ◌∷◌, none, some, Bool-cases,
  inl, inr, true, false, ok, length, arith, map,
}
use taurus_cdt.Kv.Keys.{Bytes}
use taurus_cdt.Kv.Host.{KvHost}
use taurus_cdt.Kv.Listing
use taurus_cdt.Kv.Cursors.{KvCursors, Lt, CursorLaws}
use taurus_cdt.Map.{MapType, Elem, self_prefix, full_key, unpacked}
use taurus_cdt.Map.Iterator.{Iterator, same, materialize, lower_bound, slice, ranged_slice}
use taurus_cdt.Map.Position.{
  place, Placed, Placed-Settled, lower_bound-Placed, increment-Placed, materialize-place,
  same-places,
}

module _ {K V : Type 0} (t : MapType K V) {host : KvHost} (cursors : KvCursors host)
    (laws : CursorLaws cursors) (s : host.Store) where
  open host use {kv_get}
  open cursors use {prefix_of, stands, Le}

  -- The key is in use, and its bytes are a value.
  pub record Value (k : Bytes) (v : V) : Type 0 where
    pub bytes : Bytes
    pub stored : kv_get s k ≡ some bytes
    pub unpacks : t.unpack bytes ≡ some v

  -- A list of the keys in use of a range that are below a bound, in increasing order, with the values.
  abbrev pub Lists : Bytes → (Bytes → Type 0) → List (Bytes × V) → Type 0
  Lists hk From l = Listing.Lists cursors laws s (self_prefix t) Value hk From l

  abbrev pub elem : Bytes × V → Elem V
  elem (k, v) = record { key = k; value = v }

  Value-used : (k : Bytes) (v : V) → Value k v → kv_get s k ≢ none
  Value-used k v w e = let u : none ≡ some w.bytes = sym e ∙ w.stored in cc

  materialize-Value :
      (it : Iterator t host cursors) (k : Bytes) (v : V)
      → place t cursors laws it ≡ some k
      → Value k v
      → materialize t host cursors s it ≡ ok (elem (k, v))
  unfolding unpacked
  materialize-Value it k v e w =
      materialize-place t cursors laws s it k w.bytes e w.stored ∙ rw (unpacked, w.unpacks) refl

  module _ (h : K) where
    abbrev bound : Iterator t host cursors
    bound = lower_bound t host cursors s h

    bound-Placed : Placed t cursors laws s Le (λ j. Le (full_key t h) j) bound
    unfolding lower_bound
    bound-Placed = lower_bound-Placed t cursors laws s (full_key t h)

    same_iff :
        (From : Bytes → Type 0) (it : Iterator t host cursors)
        → Placed t cursors laws s Le From it
        → (same t host cursors it bound ≡ true)
          ↔ (place t cursors laws it ≡ place t cursors laws bound)
    same_iff From it p =
        same-places t cursors laws it bound (Placed-Settled t cursors laws s Le From it p)
          (Placed-Settled t cursors laws s Le _ bound bound-Placed)

    slice-Lists :
        (n : ℕ) (From : Bytes → Type 0) (it : Iterator t host cursors) (l : List (Bytes × V))
        → length l < n
        → ((j : Bytes) → Le (full_key t h) j → From j)
        → Placed t cursors laws s Le From it
        → Lists (full_key t h) From l
        → slice t host cursors n s it h ≡ ok (map elem l)
    unfolding slice
    slice-Lists zero From it l m up p w = absurd (omega (arith, m))
    slice-Lists (suc n) From it [] m up p w =
        let e =
          Listing.at_bound cursors laws s (self_prefix t) Value (full_key t h) From
            it.current_status bound.current_status (place t cursors laws it)
            (place t cursors laws bound) up w p.first bound-Placed.first in
        rw ((same_iff From it p).1 e) refl
    slice-Lists (suc n) From it ((k, v) ∷ l) m up p (x, w, f, b, least, others) =
        let (e, st) =
          Listing.at_next cursors laws s (self_prefix t) Value (full_key t h) From it.current_status
            (place t cursors laws it) k v l (Value-used k v x) (x, w, f, b, least, others)
            p.first in
        let d : same t host cursors it bound ≡ false =
          elim (Bool-cases (same t host cursors it bound)) [
            | inr q ↦ q
            | inl q ↦ absurd (
                Listing.not_bound cursors laws s (self_prefix t) Value (full_key t h) k
                  bound.current_status (place t cursors laws bound) b bound-Placed.first
                  (sym e ∙ (same_iff From it p).0 q))
          ] in
        let up' : (j : Bytes) → Le (full_key t h) j → Lt cursors k j = λ j m. (
          laws.le_trans k (full_key t h) j b.0 m,
          λ q.
              Listing.not_above cursors laws s (self_prefix t) Value k (full_key t h) b
                (subst (λ i. Le (full_key t h) i) (sym q) m),
        ) in
        let (it', i, p') =
          increment-Placed t cursors laws s it k p.of_map st e (Value-used k v x) in
        let rest = slice-Lists n (λ j. Lt cursors k j) it' l (omega (arith, m)) up' p' others in
        rw (d, materialize-Value it k v e x, i, rest) refl

  -- With a round more than there are keys, `ranged_slice( l, h )` returns the elements of a list of the keys in use from
  -- `l` on and below `h`, in increasing order, when `l` is not above `h`.
  pub ranged_slice-Lists :
      (l h : K) (ks : List (Bytes × V))
      → Le (full_key t l) (full_key t h)
      → Lists (full_key t h) (λ j. Le (full_key t l) j) ks
      → ranged_slice t host cursors (suc (length ks)) s l h ≡ ok (map elem ks)
  unfolding ranged_slice lower_bound
  ranged_slice-Lists l h ks le w =
      slice-Lists h (suc (length ks)) (λ j. Le (full_key t l) j) _ ks (omega arith)
        (λ j m. laws.le_trans _ _ j le m) (lower_bound-Placed t cursors laws s (full_key t l)) w
