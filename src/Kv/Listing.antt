-- ===== src/Kv/Listing.antt =====
-- The keys of a range in a host's database, in increasing order, and where a cursor that goes over them stands.
use taurus_cdt.Prelude.{
  ◌≡◌, ◌≢◌, refl, sym, ap, subst, List, [], ◌∷◌, Option, none, some, Bool-cases, inl, inr, true,
}
use taurus_cdt.Kv.Keys.{Bytes, full_key, bytes_eq, bytes_eq→eq, bytes_eq_refl}
use taurus_cdt.Kv.Host.{KvHost}
use taurus_cdt.Kv.Cursors.{Status, iterator_ok, KvCursors, First, Lt, Under, CursorLaws}

module _ {host : KvHost} (cursors : KvCursors host) (laws : CursorLaws cursors) (s : host.Store)
    (p : Bytes) {V : Type 0} (Value : Bytes → V → Type 0) where
  open host use {kv_get}
  open cursors use {Le}

  -- A list of the keys in use under a prefix that are in a range and below a bound, in increasing order, with a value
  -- for each: each is the least of those of the range, and the rest lists those after it.
  abbrev pub Lists : Bytes → (Bytes → Type 0) → List (Bytes × V) → Type 0
  Lists hk From [] =
      (r : Bytes)
      → From (full_key p r)
      → Lt cursors (full_key p r) hk
      → kv_get s (full_key p r) ≡ none
  Lists hk From ((k, v) ∷ l) =
      Value k v
      × Under p k
      × From k
      × Lt cursors k hk
      × ((r : Bytes)
          → From (full_key p r)
          → Lt cursors (full_key p r) hk
          → kv_get s (full_key p r) ≢ none
          → Le k (full_key p r))
      × Lists hk (λ j. Lt cursors k j) l

  at_key : (P : Bytes → Type 0) → ((r : Bytes) → P (full_key p r)) → (k : Bytes) → Under p k → P k
  at_key P f k (r, q) = subst P (sym q) (f r)

  -- A key that is not below another is above it.
  above : (j k : Bytes) → (Lt cursors j k → ⊥) → Le k j
  above j k n = elim (laws.le_total k j) [
    | inl l ↦ l
    | inr l ↦ elim (Bool-cases (bytes_eq j k)) [
      | inl e ↦ subst (λ i. Le k i) (sym (bytes_eq→eq j k e)) (laws.le_refl k)
      | inr e ↦ absurd (
          n (
            l,
            λ q.
                let u : bytes_eq j k ≡ true =
                  subst (λ i. bytes_eq j i ≡ true) q (bytes_eq_refl j) in
                cc,
          ))
    ]
  ]

  pub not_above : (j k : Bytes) → Lt cursors j k → Le k j → ⊥
  not_above j k (l, n) m = n (laws.le_antisym j k l m)

  module _ (hk : Bytes) where
    -- Where no key of the range is left, the first one is not below the bound.
    past :
        (From : Bytes → Type 0) (k : Bytes)
        → Lists hk From []
        → Under p k
        → From k
        → kv_get s k ≢ none
        → Le hk k
    past From k l w m u =
        above k hk (λ b. u (at_key (λ j. From j → Lt cursors j hk → kv_get s j ≡ none) l k w m b))

    -- No key is left: a cursor at the first of the range is not below that at the bound.
    pub not_before :
        (From : Bytes → Type 0) (st st' : Status) (k k' : Bytes)
        → Lists hk From []
        → First cursors s p Le From st (some k)
        → First cursors s p Le (λ j. Le hk j) st' (some k')
        → Le k' k
    not_before From st st' k k' l (e, u, m, w, least) (e', u', m', w', least') =
        at_key (λ j. Le hk j → kv_get s j ≢ none → Le k' j) least' k w (past From k l w m u) u

    pub bound_past :
        (From : Bytes → Type 0) (st st' : Status) (k : Bytes)
        → Lists hk From []
        → First cursors s p Le From st (some k)
        → First cursors s p Le (λ j. Le hk j) st' none
        → ⊥
    bound_past From st st' k l (e, u, m, w, least) g =
        u (at_key (λ j. Le hk j → kv_get s j ≡ none) g.1 k w (past From k l w m u))

    -- If the range holds every key from the bound on, they stand at one place.
    pub at_bound :
        (From : Bytes → Type 0) (st st' : Status) (o o' : Option Bytes)
        → ((j : Bytes) → Le hk j → From j)
        → Lists hk From []
        → First cursors s p Le From st o
        → First cursors s p Le (λ j. Le hk j) st' o'
        → o ≡ o'
    at_bound From st st' none none up l f g = refl
    at_bound From st st' none (some k') up l f (e, u, m, w, least) =
        absurd (u (at_key (λ j. From j → kv_get s j ≡ none) f.1 k' w (up k' m)))
    at_bound From st st' (some k) none up l f g = absurd (bound_past From st st' k l f g)
    at_bound From st st' (some k) (some k') up l (e, u, m, w, least) (e', u', m', w', least') =
        ap some (
          laws.le_antisym k k'
            (at_key (λ j. From j → kv_get s j ≢ none → Le k j) least k' w' (up k' m') u')
            (not_before From st st' k k' l (e, u, m, w, least) (e', u', m', w', least')))

    -- A key is left: the cursor stands at it.
    pub at_next :
        (From : Bytes → Type 0) (st : Status) (o : Option Bytes) (k : Bytes) (v : V)
        (l : List (Bytes × V))
        → kv_get s k ≢ none
        → Lists hk From ((k, v) ∷ l)
        → First cursors s p Le From st o
        → (o ≡ some k) × (st ≡ iterator_ok)
    at_next From st none k v l n (x, w, f, b, least, rest) g =
        absurd (n (at_key (λ j. From j → kv_get s j ≡ none) g.1 k w f))
    at_next From st (some k') k v l n (x, w, f, b, least, rest) (e, u, m, w', least') =
        let q : Le k' k = at_key (λ j. From j → kv_get s j ≢ none → Le k' j) least' k w f n in
        let d : k' ≢ hk = λ i. not_above k hk b (subst (λ j. Le j k) i q) in
        let c : Lt cursors k' hk = (laws.le_trans k' k hk q b.0, d) in
        let q' : Le k k' =
          at_key (λ j. From j → Lt cursors j hk → kv_get s j ≢ none → Le k j) least k' w' m c u in
        (ap some (laws.le_antisym k' k q q'), e)

    -- It is below the cursor at the bound.
    pub before_bound :
        (k k' : Bytes) (st : Status)
        → Lt cursors k hk
        → First cursors s p Le (λ j. Le hk j) st (some k')
        → Lt cursors k k'
    before_bound k k' st b (e', u, m, w, least) =
        (laws.le_trans k hk k' b.0 m, λ q. not_above k hk b (subst (λ j. Le hk j) (sym q) m))

    pub not_bound :
        (k : Bytes) (st : Status) (o : Option Bytes)
        → Lt cursors k hk
        → First cursors s p Le (λ j. Le hk j) st o
        → some k ≢ o
    not_bound k st none b g e = cc
    not_bound k st (some k') b g e = (before_bound k k' st b g).1 (let q : k ≡ k' = cc in q)
