-- ===== src/MultiIndex/Emplace.antt =====
-- `emplace` of libraries/eosiolib/contracts/eosio/multi_index.hpp against the abstract table.
use taurus_cdt.Prelude.{
  ℕ, ◌+◌, ◌<◌, ◌≡◌, refl, sym, ap, ◌∙◌, subst, List, true, ◌==◌, none, some, All, Option-cases, inl,
  inr, ==_iff, ==_refl, ne→==-false, arith, Result, ok, err,
}
use taurus_cdt.MultiIndex.Host.{DbHost, HostLaws}
use taurus_cdt.MultiIndex.{
  Schema, Lawful, Failure, aborted_by_host, Item, Table, item_at, item_of_key, push_item,
  next_after, Indexed, with_iter, store_index, emplace,
}
use taurus_cdt.MultiIndex.FindLast.{find_last-All, find_last-push, All-map}
use taurus_cdt.MultiIndex.Consistency.{
  Entry, Cached, Consistent, content, content-row, content-none,
}
use taurus_cdt.MultiIndex.Rounds.{Stepped, for_each-Looped}
use taurus_cdt.MultiIndex.Find.{push_item-Consistent}
use taurus_cdt.MultiIndex.Change.{
  Elsewhere, Filed-Elsewhere, Cached-Elsewhere, Wrote, contents-Elsewhere, Elsewhere-Looped,
  EntrySet-Frame, with_iter-remembered, Row-Cached, Looped-Entered,
}

module _ {V Key : Type 0} (t : Schema V Key) (host : DbHost Key) (laws : Lawful t)
    (hosted : HostLaws host) where
  open host use {Store, lookup, sec}

  store_index-Stepped :
      (obj : V) (n : ℕ) (e : V → Key) (x : Indexed t host)
      → sec x.1 n (t.primary_key obj) ≡ none
      → Stepped t host (t.primary_key obj) (Entry t host obj) n e x (store_index t host obj n e x)
  unfolding store_index
  store_index-Stepped obj n e (x, s) h =
      let (g, s', q, c) = hosted.idx_store_new s n (t.primary_key obj) (e obj) h in
      let y = with_iter t host x n (some g) in
      let (f, i) =
        EntrySet-Frame t host s s' n (t.primary_key obj) (some (g, e obj)) x y c
          (λ m d. rw (ne→==-false m n d) refl) in
      record {
        after = (y, s');
        returns = rw q refl;
        done = record { handle = g; entered = i; remembered = with_iter-remembered t host x n g };
        frame = f;
      }

  uncached :
      (m : Table t host) (k : ℕ)
      → Consistent t host m
      → lookup m.store k ≡ none
      → item_of_key t host m.items k ≡ none
  uncached m k c e = elim (Option-cases (item_of_key t host m.items k)) [
    | inl n ↦ n
    | inr (i, q) ↦
        (let (ci, p) =
            find_last-All (Cached t host m.store) (λ (x : Item V). t.primary_key x.obj == k) m.items
              i q c.cached in
          let r : lookup m.store k ≡ some (i.primary_itr, t.pack i.obj) =
            ap (lookup m.store) (sym ((==_iff (t.primary_key i.obj) k).0 p)) ∙ ci.row in
          cc)
  ]

  -- The cached items are not of a key that has no row.
  All-Elsewhere :
      (k : ℕ) (s s' : Store) (items : List (Item V))
      → lookup s k ≡ none
      → Elsewhere t host k s s'
      → All (Cached t host s) items
      → All (Cached t host s') items
  All-Elsewhere k s s' items e f c =
      All-map (Cached t host s) (Cached t host s') items
        (λ i ci.
          Cached-Elsewhere t host k s s' i f
            (λ p.
              let r : lookup s k ≡ some (i.primary_itr, t.pack i.obj) =
                ap (lookup s) (sym p) ∙ ci.row in
              cc)
            ci)
        c

  -- What `emplace` gives: the item of the object, in the cache, and a table that holds it; it fails in
  -- the host exactly where the key has an object.
  abbrev pub Emplaces : Table t host → V → Result Failure (Item V × Table t host) → Type 0
  Emplaces m obj (err e) =
      (e ≡ aborted_by_host) × ((v : V) × (content t host m.store (t.primary_key obj) ≡ some v))
  Emplaces m obj (ok (i, m')) =
      (content t host m.store (t.primary_key obj) ≡ none)
      × (i.obj ≡ obj)
      × Wrote t host m (t.primary_key obj) (some obj) m'
      × (item_at t host m'.items i.primary_itr ≡ some i)
      × (m'.next_primary_key ≡ next_after t host (t.primary_key obj) m.next_primary_key)

  emplace_new :
      (m : Table t host) (obj : V)
      → (m.code == host.current_receiver) ≡ true
      → Consistent t host m
      → lookup m.store (t.primary_key obj) ≡ none
      → Emplaces m obj (emplace t host m obj)
  unfolding emplace push_item
  emplace_new m obj own c n =
      let k = t.primary_key obj in
      let (h, s₁, q, w) = hosted.store_new m.store k (t.pack obj) n in
      let l =
        for_each-Looped t host k (store_index t host obj) (λ e iter entry. entry ≡ none)
          (Entry t host obj) (λ n e x p. store_index-Stepped obj n e x p) 0 t.extractors
          (λ n. none, s₁)
          (λ i e g.
            let z : i ≡ 0 + i = omega arith in
            subst (λ i. sec s₁ i k ≡ none) z (w.1 i k ∙ c.filed.bare k i e n g)) in
      let (y, s₂) = l.after in
      let (f, r) =
        Elsewhere-Looped t host (λ m. m < 0) k (some (h, t.pack obj)) m.store s₁ s₂ (λ n. none) y w
          l.frame in
      let i : Item V = record { obj = obj; primary_itr = h; iters = y } in
      let ci : Cached t host s₂ i = record {
        row = r;
        entered = Looped-Entered t host obj k refl _ _ l;
      } in
      let filed =
        Filed-Elsewhere t host k m.store s₂ f c.filed (Row-Cached t host s₂ i ci)
          (λ p. let u : none ≡ some (h, t.pack obj) = sym p ∙ r in cc) in
      let m₂ : Table t host = record m {
        store = s₂;
        next_primary_key = next_after t host k m.next_primary_key;
      } in
      let c₂ =
        push_item-Consistent t host laws hosted m₂ i (uncached m k c n) filed
          (All-Elsewhere k m.store s₂ m.items n f c.cached) c.distinct ci in
      rw (own, q, l.returns)
        (
          content-none t host m.store k n,
          refl,
          record {
            contents =
                contents-Elsewhere t host k (some obj) m.store s₂ f
                  (content-row t host laws s₂ k h obj r);
            same_this = refl;
            same_code = refl;
            consistent = c₂;
          },
          find_last-push (λ (x : Item V). x.primary_itr == h) m.items i (==_refl h),
          refl,
        )

  -- For a table of the contract's own, whose cache agrees with the host, `emplace` fails exactly where
  -- the key of the object has an object already, in the host; else the table has the object under its
  -- key and is the same at all others, the cache has its item, and the two still agree.
  pub emplace-content :
      (m : Table t host) (obj : V)
      → (m.code == host.current_receiver) ≡ true
      → Consistent t host m
      → Emplaces m obj (emplace t host m obj)
  unfolding emplace
  emplace-content m obj own c = elim (Option-cases (lookup m.store (t.primary_key obj))) [
    | inl n ↦ emplace_new m obj own c n
    | inr ((h, b), r) ↦
        (let row = c.filed.rows (t.primary_key obj) h b r in
          rw (own, hosted.store_taken m.store (t.primary_key obj) (t.pack obj) (h, b) r)
            (
              refl,
              (
                row.obj,
                content-row t host laws m.store (t.primary_key obj) h row.obj
                    (r ∙ ap (λ b. some (h, b)) row.packed),
              ),
            ))
  ]
