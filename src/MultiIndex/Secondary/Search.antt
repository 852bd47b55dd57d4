-- ===== src/MultiIndex/Secondary/Search.antt =====
-- Searches in a secondary index of libraries/eosiolib/contracts/eosio/multi_index.hpp against the abstract table.
use taurus_cdt.Prelude.{
  ℕ, ◌≡◌, ◌≢◌, refl, sym, ap, ◌∙◌, subst, ◌==◌, Option, none, some, get_elem?, All, Option-cases,
  Bool-cases, inl, inr, ==_iff, Result, ok, err, ◌>>=◌,
}
use taurus_cdt.MultiIndex.Host.{DbHost, HostLaws}
use taurus_cdt.MultiIndex.Order.{KeyOrder, KeyOrderLaws, NearestEntry, IndexLaws}
use taurus_cdt.MultiIndex.{
  Schema, Lawful, Failure, Item, Table, find, dangling_reference, or_failure, item_at, with_iter,
}
use taurus_cdt.MultiIndex.FindLast.{find_last-All, All-map}
use taurus_cdt.MultiIndex.Consistency.{
  Filed, Cached, Consistent, content, content-row, content-none,
}
use taurus_cdt.MultiIndex.Find.{same_test, Loads, Finds, find-content}
use taurus_cdt.MultiIndex.Change.{Elsewhere}
use taurus_cdt.MultiIndex.Replace.{
  SameKey, set_item-Distinct, set_item-Cached, replaced, item_at-set_item,
}
use taurus_cdt.MultiIndex.Secondary.{remember, at_entry, lower_bound, if_equal, find_secondary}

module _ {V Key : Type 0} (t : Schema V Key) (host : DbHost Key) (o : KeyOrder Key) (number : ℕ)
    (extract : V → Key) (laws : Lawful t) (hosted : HostLaws host)
    (registered : get_elem? t.extractors number ≡ some extract) where
  open host use {Store, lookup, sec}

  abbrev first : ℕ → Option (ℕ × Key) → ℕ
  first d none = d
  first d (some (g, x)) = g

  -- An item that remembers a handle that the host has for its entry.
  remember-Cached :
      (s : Store) (i : Item V) (g : ℕ) (x : Key)
      → Cached t host s i
      → sec s number (t.primary_key i.obj) ≡ some (g, x)
      → Cached t host s (record i { iters = with_iter t host i.iters number (some g) })
  remember-Cached s i g x c e = record {
    row = c.row;
    entered = λ n f q. elim (Bool-cases (n == number)) [
      | inl p ↦
          (let w = c.entered n f q in
            let r : n ≡ number = (==_iff n number).0 p in
            let u : some (g, x) ≡ some (w.handle, f i.obj) =
              sym e ∙ (ap (λ n. sec s n (t.primary_key i.obj)) (sym r) ∙ w.entered) in
            let h : g ≡ w.handle = ap (first g) u in
            record {
              handle = w.handle;
              entered = w.entered;
              remembered = λ g' d. (let z : some g ≡ some g' = rw p at d in cc);
            })
      | inr p ↦
          (let w = c.entered n f q in
            record {
              handle = w.handle;
              entered = w.entered;
              remembered = λ g' d. w.remembered g' (rw p at d);
            })
    ];
  }

  -- The object of a key, in the cache, in a table whose host is as it was.
  abbrev pub Holds : Table t host → ℕ → Item V → Table t host → Type 0
  Holds m k i m' =
      (t.primary_key i.obj ≡ k)
      × (content t host m.store k ≡ some i.obj)
      × (m'.store ≡ m.store)
      × Consistent t host m'
      × (item_at t host m'.items i.primary_itr ≡ some i)

  remember-Holds :
      (m m' : Table t host) (k g : ℕ) (x : Key) (i : Item V)
      → sec m.store number k ≡ some (g, x)
      → Loads t host laws hosted m k i m'
      → (let r = remember t host o number extract m' i (some g) in Holds m k r.0 r.1)
  unfolding remember
  remember-Holds m m' k g x i e (p, c, u, v, h) =
      let ci =
        (find_last-All (Cached t host m'.store) (λ (y : Item V). y.primary_itr == i.primary_itr)
          m'.items i h v.cached).0 in
      let i' : Item V = record i { iters = with_iter t host i.iters number (some g) } in
      let e' : sec m'.store number (t.primary_key i.obj) ≡ some (g, x) = rw (u.same_store, p) e in
      let ci' = remember-Cached m'.store i g x ci e' in
      let still : Elsewhere t host (t.primary_key i.obj) m'.store m'.store = record {
        rows = λ j d. refl;
        entries = λ n j d. refl;
      } in
      let sames : All (SameKey t host i.primary_itr i') m'.items =
        All-map (Cached t host m'.store) (SameKey t host i.primary_itr i') m'.items
          (λ y d.
            same_test t host laws hosted m'.store (t.primary_key i.obj) i.primary_itr (t.pack i.obj)
              y ci.row d)
          v.cached in
      (
        p,
        c,
        u.same_store,
        record {
          filed = v.filed;
          cached =
              set_item-Cached t host m'.store m'.store i.primary_itr i' m'.items still ci' sames
                v.cached;
          distinct = set_item-Distinct t host i.primary_itr i' m'.items sames v.distinct;
        },
        item_at-set_item t host i.primary_itr i' m'.items refl ∙ ap (replaced t host i') h,
      )

  -- The entry of an object.
  content-entry :
      (s : Store) (k : ℕ) (v : V)
      → Filed t host s
      → content t host s k ≡ some v
      → (g : ℕ) × (sec s number k ≡ some (g, extract v))
  content-entry s k v f q = elim (Option-cases (lookup s k)) [
    | inl n ↦ (let u : none ≡ some v = sym (content-none t host s k n) ∙ q in cc)
    | inr ((h, b), r) ↦
        (let row = f.rows k h b r in
          let w = row.entered number extract registered in
          let u : some row.obj ≡ some v =
            sym (content-row t host laws s k h row.obj (r ∙ ap (λ b. some (h, b)) row.packed))
            ∙ q in
          let e : row.obj ≡ v = cc in
          (
            w.handle,
            ap (sec s number) (sym row.keyed)
                ∙ (w.entered ∙ ap (λ v. some (w.handle, extract v)) e),
          ))
  ]

  content-no_entry :
      (s : Store) (k : ℕ) → Filed t host s → content t host s k ≡ none → sec s number k ≡ none
  content-no_entry s k f q = elim (Option-cases (lookup s k)) [
    | inl n ↦ f.bare k number extract n registered
    | inr ((h, b), r) ↦
        (let row = f.rows k h b r in
          let u : none ≡ some row.obj =
            sym q ∙ content-row t host laws s k h row.obj (r ∙ ap (λ b. some (h, b)) row.packed) in
          cc)
  ]

  -- The item of the first object, in the order of the index, of those whose secondary keys are in a
  -- range; the end only where there is none.
  abbrev pub Searches :
      Table t host → (Key → Type 0) → Result Failure (Option (Item V) × Table t host) → Type 0
  Searches m In (err e) = ⊥
  Searches m In (ok (none, m')) =
      ((j : ℕ) (v : V) → content t host m.store j ≡ some v → ¬ In (extract v)) × (m' ≡ m)
  Searches m In (ok (some i, m')) =
      Holds m (t.primary_key i.obj) i m'
      × In (extract i.obj)
      × ((j : ℕ) (v : V)
          → content t host m.store j ≡ some v
          → In (extract v)
          → o.Le (extract i.obj) (extract v))

  none-some : (r : Option (ℕ × Key)) (g : ℕ) (x : Key) → r ≡ none → r ≡ some (g, x) → ⊥
  none-some r g x p q = cc

  abbrev second : Key → Option (ℕ × Key) → Key
  second d none = d
  second d (some (g, x)) = x

  found-Searches :
      (m : Table t host) (In : Key → Type 0) (k g : ℕ)
      → Consistent t host m
      → NearestEntry host o m.store number In (some (g, k))
      → (r : Result Failure (Option (Item V) × Table t host)) → Finds t host laws hosted m k r
      → Searches m In (
          r >>= λ (found, m'). or_failure found dangling_reference >>= λ i.
          let (i', m'') = remember t host o number extract m' i (some g) in ok (some i', m''))
  unfolding remember
  found-Searches m In k g c n (err e) f = f
  found-Searches m In k g c (x, e, p, before) (ok (none, m')) f =
      absurd (none-some _ g x (content-no_entry m.store k c.filed f.0) e)
  found-Searches m In k g c (x, e, p, before) (ok (some i, m')) f =
      let h = remember-Holds m m' k g x i e f in
      let (g', w) = content-entry m.store k i.obj c.filed f.1 in
      let q : x ≡ extract i.obj = ap (second x) (sym e ∙ w) in
      (
        subst (λ k. (let r = remember t host o number extract m' i (some g) in Holds m k r.0 r.1))
            (sym f.0) h,
        subst In q p,
        λ j v d l.
            let (g'', z) = content-entry m.store j v c.filed d in
            subst (λ x. o.Le x (extract v)) q (before j g'' (extract v) z l),
      )

  at_entry-Searches :
      (m : Table t host) (In : Key → Type 0) (e : Option (ℕ × ℕ))
      → Consistent t host m
      → NearestEntry host o m.store number In e
      → Searches m In (at_entry t host o number extract m e)
  unfolding at_entry
  at_entry-Searches m In none c n =
      (λ j v d l. let (g, z) = content-entry m.store j v c.filed d in n j g (extract v) z l, refl)
  at_entry-Searches m In (some (g, k)) c n =
      found-Searches m In k g c n (find t host m k) (find-content t host laws hosted m k c)

  -- For a table whose cache agrees with the host, and an index of it, the `lower_bound` of a secondary
  -- key reaches the object of the least secondary key from that one on, and the end exactly where there
  -- is none; the host is unchanged and the cache still agrees with it, with the handle of the entry.
  pub lower_bound-Searches :
      (m : Table t host) (secondary : Key)
      → IndexLaws host o
      → Consistent t host m
      → Searches m (λ x. o.Le secondary x) (lower_bound t host o number extract m secondary)
  unfolding lower_bound
  lower_bound-Searches m secondary order c =
      at_entry-Searches m (λ x. o.Le secondary x) _ c (order.idx_lower m.store number secondary)

  abbrev pub FindsSecondary :
      Table t host → Key → Result Failure (Option (Item V) × Table t host) → Type 0
  FindsSecondary m x (err e) = ⊥
  FindsSecondary m x (ok (none, m')) =
      ((j : ℕ) (v : V) → content t host m.store j ≡ some v → extract v ≢ x)
      × (m'.store ≡ m.store)
      × Consistent t host m'
  FindsSecondary m x (ok (some i, m')) = Holds m (t.primary_key i.obj) i m' × (extract i.obj ≡ x)

  searched :
      (m : Table t host) (x : Key) (r : Result Failure (Option (Item V) × Table t host))
      → KeyOrderLaws o
      → Consistent t host m
      → Searches m (λ y. o.Le x y) r
      → FindsSecondary m x (r >>= λ (lb, m'). ok (if_equal t host o number extract x lb, m'))
  searched m x (err e) k c h = h
  searched m x (ok (none, m')) k c (h, q) = (
    λ j v d e. h j v d (subst (λ y. o.Le x y) (sym e) (k.le_refl x)),
    ap (λ (n : Table t host). n.store) q,
    rw q c,
  )
  searched m x (ok (some i, m')) k c (h, p, before) = elim (Bool-cases (o.eqb x (extract i.obj))) [
    | inl q ↦ rw q (h, sym ((k.eqb_iff x (extract i.obj)).0 q))
    | inr q ↦ rw q (
      λ j v d e.
          let le : o.Le (extract i.obj) x =
            subst (o.Le (extract i.obj)) e
              (before j v d (subst (λ y. o.Le x y) (sym e) (k.le_refl x))) in
          let w = (k.eqb_iff x (extract i.obj)).1 (k.le_antisym x (extract i.obj) p le) in cc,
      h.2,
      h.3,
    )
  ]

  -- For a table whose cache agrees with the host, an index of it, and an order of its keys with an `==` that
  -- is equality, `find` in the index gives the item of an object with that secondary key, in the cache, and
  -- the end exactly where no object has it; the host is unchanged and the cache still agrees with it.
  pub find_secondary-content :
      (m : Table t host) (secondary : Key)
      → KeyOrderLaws o
      → IndexLaws host o
      → Consistent t host m
      → FindsSecondary m secondary (find_secondary t host o number extract m secondary)
  unfolding find_secondary
  find_secondary-content m secondary k order c =
      searched m secondary (lower_bound t host o number extract m secondary) k c
        (lower_bound-Searches m secondary order c)
