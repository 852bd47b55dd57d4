-- ===== src/MultiIndex/Find.antt =====
-- `find` and `get` of libraries/eosiolib/contracts/eosio/multi_index.hpp against the abstract table.
use taurus_cdt.Prelude.{
  ℕ, ◌≡◌, ◌≢◌, refl, sym, ap, ◌∙◌, List, [], ◌∷◌, ◌++◌, false, ◌==◌, Option, none, some, All,
  All-append, Option-cases, Bool-cases, inl, inr, ==_iff, ==_refl, ne→==-false, Result, ok, err,
  ◌>>=◌,
}
use taurus_cdt.MultiIndex.Host.{DbHost, HostLaws}
use taurus_cdt.MultiIndex.{
  Schema, Lawful, Failure, unable_to_find_key, Item, Table, item_at, item_of_key, push_item,
  load_object, find_stored, find, get, require_find, or_failure,
}
use taurus_cdt.MultiIndex.FindLast.{
  find_last-All, find_last-agree, find_last-push, find_last-append, find_last-none, All-map,
}
use taurus_cdt.MultiIndex.Consistency.{
  Filed, Cached, Distinct, Consistent, content, content-row, content-none, content-Cached,
}

module _ {V Key : Type 0} (t : Schema V Key) (host : DbHost Key) (laws : Lawful t)
    (hosted : HostLaws host) where
  open host use {Store, lookup}

  pub same_test :
      (s : Store) (k h : ℕ) (b : List ℕ) (x : Item V)
      → lookup s k ≡ some (h, b)
      → Cached t host s x
      → (x.primary_itr == h) ≡ (t.primary_key x.obj == k)
  same_test s k h b x e c = elim (Bool-cases (x.primary_itr == h)) [
    | inl p ↦
        (let q : x.primary_itr ≡ h = (==_iff x.primary_itr h).0 p in
          let r : t.primary_key x.obj ≡ k =
            hosted.one_key s (t.primary_key x.obj) k h (t.pack x.obj) b
              (c.row ∙ ap (λ n. some (n, t.pack x.obj)) q) e in
          p ∙ sym ((==_iff (t.primary_key x.obj) k).1 r))
    | inr p ↦
        p
        ∙ sym (
            ne→==-false (t.primary_key x.obj) k (λ r.
              let q : some (x.primary_itr, t.pack x.obj) ≡ some (h, b) =
                sym c.row ∙ (ap (lookup s) r ∙ e) in
              let n : x.primary_itr ≡ h = cc in let w = (==_iff x.primary_itr h).1 n in cc))
  ]

  -- In the cache, a handle and the key of its row find the same item.
  pub item_at-item_of_key :
      (s : Store) (items : List (Item V)) (k h : ℕ) (b : List ℕ)
      → lookup s k ≡ some (h, b)
      → All (Cached t host s) items
      → item_at t host items h ≡ item_of_key t host items k
  item_at-item_of_key s items k h b e c =
      find_last-agree (λ x. x.primary_itr == h) (λ x. t.primary_key x.obj == k) items
        (All-map (Cached t host s) (λ x. (x.primary_itr == h) ≡ (t.primary_key x.obj == k)) items
          (λ x d. same_test s k h b x e d) c)

  Distinct-push :
      (items : List (Item V)) (i : Item V)
      → All (λ (y : Item V). t.primary_key y.obj ≢ t.primary_key i.obj) items
      → Distinct t host items
      → Distinct t host (items ++ i ∷ [])
  Distinct-push [] i h d = (tt, tt)
  Distinct-push (x ∷ xs) i h d = (
    All-append (λ (y : Item V). t.primary_key y.obj ≢ t.primary_key x.obj) xs (i ∷ []) d.0
        (λ e. h.0 (sym e), tt),
    Distinct-push xs i h.1 d.1,
  )

  -- An item of the row of a key that the cache does not have.
  pub push_item-Consistent :
      (m : Table t host) (i : Item V)
      → item_of_key t host m.items (t.primary_key i.obj) ≡ none
      → Filed t host m.store
      → All (Cached t host m.store) m.items
      → Distinct t host m.items
      → Cached t host m.store i
      → Consistent t host (push_item t host m i)
  unfolding push_item
  push_item-Consistent m i e f c d ci = record {
    filed = f;
    cached = All-append (Cached t host m.store) m.items (i ∷ []) c (ci, tt);
    distinct =
        Distinct-push m.items i
          (All-map (λ (y : Item V). (t.primary_key y.obj == t.primary_key i.obj) ≡ false)
            (λ (y : Item V). t.primary_key y.obj ≢ t.primary_key i.obj) m.items
            (λ y p q. let w = (==_iff (t.primary_key y.obj) (t.primary_key i.obj)).1 q in cc)
            (find_last-none (λ (y : Item V). t.primary_key y.obj == t.primary_key i.obj) m.items e))
          d;
  }

  -- Only the cache changes, and it holds what it held.
  pub record Unchanged (m m' : Table t host) : Type 0 where
    pub same_store : m'.store ≡ m.store
    pub same_this : m'.this ≡ m.this
    pub same_code : m'.code ≡ m.code
    pub same_next : m'.next_primary_key ≡ m.next_primary_key
    pub held :
        (h : ℕ) (i : Item V)
        → item_at t host m.items h ≡ some i
        → item_at t host m'.items h ≡ some i

  -- The object of a key, in the cache, which still agrees with the host.
  abbrev pub Loads : Table t host → ℕ → Item V → Table t host → Type 0
  Loads m k i m' =
      (t.primary_key i.obj ≡ k)
      × (content t host m.store k ≡ some i.obj)
      × Unchanged m m'
      × Consistent t host m'
      × (item_at t host m'.items i.primary_itr ≡ some i)

  Unchanged-refl : (m : Table t host) → Unchanged m m
  Unchanged-refl m = record {
    same_store = refl;
    same_this = refl;
    same_code = refl;
    same_next = refl;
    held = λ h i e. e;
  }

  -- An item of the cache with the key.
  Loads-cached :
      (m : Table t host) (k : ℕ) (i : Item V)
      → Consistent t host m
      → item_of_key t host m.items k ≡ some i
      → Loads m k i m
  Loads-cached m k i c e =
      let (ci, p) =
        find_last-All (Cached t host m.store) (λ (x : Item V). t.primary_key x.obj == k) m.items i e
          c.cached in
      let q : t.primary_key i.obj ≡ k = (==_iff (t.primary_key i.obj) k).0 p in
      (
        q,
        ap (content t host m.store) (sym q) ∙ content-Cached t host laws m.store i ci,
        Unchanged-refl m,
        c,
        item_at-item_of_key m.store m.items (t.primary_key i.obj) i.primary_itr (t.pack i.obj)
              ci.row c.cached
            ∙ (ap (item_of_key t host m.items) q ∙ e),
      )

  -- An item of a row that the cache does not have.
  Loads-pushed :
      (m : Table t host) (k h : ℕ) (b : List ℕ)
      → Consistent t host m
      → item_of_key t host m.items k ≡ none
      → lookup m.store k ≡ some (h, b)
      → (v : V) × (t.unpack b ≡ some v)
        × (let i : Item V = record { obj = v; primary_itr = h; iters = λ n. none } in
            Loads m k i (push_item t host m i))
  unfolding push_item
  Loads-pushed m k h b c e r =
      let row = c.filed.rows k h b r in
      let i : Item V = record { obj = row.obj; primary_itr = h; iters = λ n. none } in
      let r' : lookup m.store k ≡ some (h, t.pack row.obj) = r ∙ ap (λ b. some (h, b)) row.packed in
      let ci : Cached t host m.store i = record {
        row = ap (lookup m.store) row.keyed ∙ r';
        entered = row.entered;
      } in
      let none_at : item_at t host m.items h ≡ none =
        item_at-item_of_key m.store m.items k h b r c.cached ∙ e in
      (
        row.obj,
        ap t.unpack row.packed ∙ laws.unpack-pack row.obj,
        (
          row.keyed,
          content-row t host laws m.store k h row.obj r',
          record {
            same_store = refl;
            same_this = refl;
            same_code = refl;
            same_next = refl;
            held = λ g j d.
                find_last-append (λ x. x.primary_itr == g) m.items i j
                  (ne→==-false h g (λ q.
                    let u : none ≡ some j = sym none_at ∙ (ap (item_at t host m.items) q ∙ d) in
                    cc))
                  d;
          },
          push_item-Consistent m i (ap (item_of_key t host m.items) row.keyed ∙ e) c.filed c.cached
              c.distinct ci,
          find_last-push (λ x. x.primary_itr == h) m.items i (==_refl h),
        ),
      )

  -- The handle of a row loads its object.
  pub load_object-Loads :
      (m : Table t host) (k h : ℕ) (b : List ℕ)
      → Consistent t host m
      → lookup m.store k ≡ some (h, b)
      → (i : Item V) × (m' : Table t host) × (load_object t host m h ≡ ok (i, m')) × Loads m k i m'
  unfolding load_object
  load_object-Loads m k h b c r = elim (Option-cases (item_of_key t host m.items k)) [
    | inr (i, e) ↦ (
      i,
      m,
      rw (load_object, item_at-item_of_key m.store m.items k h b r c.cached ∙ e) refl,
      Loads-cached m k i c e,
    )
    | inl e ↦
        (let (v, u, l) = Loads-pushed m k h b c e r in
          let i : Item V = record { obj = v; primary_itr = h; iters = λ n. none } in
          (
            i,
            push_item t host m i,
            rw
                (
                  load_object,
                  item_at-item_of_key m.store m.items k h b r c.cached ∙ e,
                  hosted.get-lookup m.store k h b r,
                  u,
                )
                refl,
            l,
          ))
  ]

  abbrev pub Finds : Table t host → ℕ → Result Failure (Option (Item V) × Table t host) → Type 0
  Finds m k (err e) = ⊥
  Finds m k (ok (none, m')) = (content t host m.store k ≡ none) × (m' ≡ m)
  Finds m k (ok (some i, m')) = Loads m k i m'

  -- For a table whose cache agrees with the host, `find` never fails: it gives the end iterator exactly
  -- where there is no object of the key, and else the item of that object, now in the cache. The host and
  -- all of the table but its cache are unchanged, and the two still agree.
  pub find-content : (m : Table t host) (k : ℕ) → Consistent t host m → Finds m k (find t host m k)
  unfolding find find_stored
  find-content m k c = elim (Option-cases (item_of_key t host m.items k)) [
    | inr (i, e) ↦ rw (find, e) (Loads-cached m k i c e)
    | inl e ↦ elim (Option-cases (lookup m.store k)) [
      | inl r ↦ rw (find, e, find_stored, r) (content-none t host m.store k r, refl)
      | inr ((h, b), r) ↦
          (let (i, m', q, l) = load_object-Loads m k h b c r in rw (find, e, find_stored, r, q) l)
    ]
  ]

  -- The answer of `get`.
  abbrev pub Gets : Table t host → ℕ → Result Failure (Item V × Table t host) → Type 0
  Gets m k (err e) = (e ≡ unable_to_find_key) × (content t host m.store k ≡ none)
  Gets m k (ok (i, m')) = Loads m k i m'

  Gets-Finds :
      (m : Table t host) (k : ℕ) (r : Result Failure (Option (Item V) × Table t host))
      → Finds m k r
      → Gets m k (r >>= λ (found, m'). or_failure found unable_to_find_key >>= λ i. ok (i, m'))
  Gets-Finds m k (err e) h = absurd h
  Gets-Finds m k (ok (none, m')) h = (refl, h.0)
  Gets-Finds m k (ok (some i, m')) h = h

  -- For a table whose cache agrees with the host, `get` gives the item of the object of the key, and
  -- fails with its message exactly where there is none.
  pub get-content : (m : Table t host) (k : ℕ) → Consistent t host m → Gets m k (get t host m k)
  unfolding get
  get-content m k c = Gets-Finds m k (find t host m k) (find-content m k c)

  loaded :
      (r : Result Failure (Item V × Table t host))
      → ((r >>= λ (i, m'). ok (some i, m')) >>= λ (found, m').
          or_failure found unable_to_find_key >>= λ i. ok (i, m'))
        ≡ r
  loaded (err e) = refl
  loaded (ok (i, m')) = refl

  -- `require_find` does what `get` does, on any table.
  pub require_find-get : (m : Table t host) (k : ℕ) → require_find t host m k ≡ get t host m k
  unfolding require_find get find find_stored
  require_find-get m k = elim (Option-cases (item_of_key t host m.items k)) [
    | inr (i, e) ↦ rw (require_find, find, e) refl
    | inl e ↦ elim (Option-cases (lookup m.store k)) [
      | inl r ↦ rw (require_find, find, e, find_stored, r) refl
      | inr ((h, b), r) ↦
          rw (require_find, find, e, find_stored, r) (sym (loaded (load_object t host m h)))
    ]
  ]
