-- ===== src/MultiIndex/Modify.antt =====
-- `modify` of libraries/eosiolib/contracts/eosio/multi_index.hpp against the abstract table.
use taurus_cdt.Prelude.{
  ℕ, ◌+◌, ◌<◌, ◌≡◌, ◌≢◌, refl, sym, ap, ◌∙◌, subst, true, ◌==◌, none, some, All, Option-cases,
  Bool-cases, inl, inr, ==_iff, ne→==-false, arith, Result, ok, err,
}
use taurus_cdt.MultiIndex.Host.{DbHost, HostLaws}
use taurus_cdt.MultiIndex.{
  Schema, Lawful, Failure, key_changed, Item, Ref, Table, item_at, next_after, Indexed, with_iter,
  known_iter, update_index, set_item, checked_item, modify,
}
use taurus_cdt.MultiIndex.FindLast.{find_last-All, All-map}
use taurus_cdt.MultiIndex.Consistency.{Entry, Cached, Consistent, content-row}
use taurus_cdt.MultiIndex.Rounds.{Stepped, for_each-Looped}
use taurus_cdt.MultiIndex.Find.{same_test}
use taurus_cdt.MultiIndex.Replace.{
  SameKey, set_item-Distinct, set_item-Cached, replaced, item_at-set_item,
}
use taurus_cdt.MultiIndex.Change.{
  Elsewhere, Filed-Elsewhere, Wrote, contents-Elsewhere, Elsewhere-Looped, EntrySet-Frame,
  with_iter-remembered, Row-Cached, Looped-Entered,
}

module _ {V Key : Type 0} (t : Schema V Key) (host : DbHost Key) (laws : Lawful t)
    (hosted : HostLaws host) where
  open host use {Store, lookup, sec}

  pub known_iter-Entry :
      (obj : V) (e : V → Key) (n k : ℕ) (x : Indexed t host)
      → (w : Entry t host obj e (x.0 n) (sec x.1 n k))
      → known_iter t host x.0 x.1 n k ≡ some w.handle
  known_iter-Entry obj e n k (x, s) w = elim (Option-cases (x n)) [
    | inl q ↦ rw (known_iter, q, w.entered) refl
    | inr (g, q) ↦ rw (known_iter, q) (ap some (w.remembered g q))
  ]

  update_index-Stepped :
      (old obj : V) (n : ℕ) (e : V → Key) (x : Indexed t host)
      → Entry t host old e (x.0 n) (sec x.1 n (t.primary_key old))
      → Stepped t host
          (t.primary_key old)
          (Entry t host obj)
          n
          e
          x
          (update_index t host old obj n e x)
  unfolding update_index
  update_index-Stepped old obj n e (x, s) w = elim (Bool-cases (t.same (e old) (e obj))) [
    | inl p ↦ record {
      after = (x, s);
      returns = rw p refl;
      done = record {
        handle = w.handle;
        entered = w.entered ∙ ap (λ c. some (w.handle, c)) (laws.same_eq (e old) (e obj) p);
        remembered = w.remembered;
      };
      frame = record {
        rows = λ j. refl;
        others = λ m j d. refl;
        kept_entry = λ m d. refl;
        kept_iter = λ m d. refl;
      };
    }
    | inr p ↦
        (let k = t.primary_key old in
          let (s', q, c) = hosted.idx_update_live s n k w.handle (e old) (e obj) w.entered in
          let y = with_iter t host x n (some w.handle) in
          let (f, i) =
            EntrySet-Frame t host s s' n k (some (w.handle, e obj)) x y c
              (λ m d. rw (ne→==-false m n d) refl) in
          record {
            after = (y, s');
            returns = rw (p, known_iter-Entry old e n k (x, s) w, q) refl;
            done = record {
              handle = w.handle;
              entered = i;
              remembered = with_iter-remembered t host x n w.handle;
            };
            frame = f;
          })
  ]

  -- The item that a reference stands for is in the cache.
  abbrev pub Live : Table t host → Ref → Item V → Type 0
  Live m r i = (r.idx ≡ m.this) × (item_at t host m.items r.itr ≡ some i)

  pub checked_item-Live :
      (m : Table t host) (r : Ref) (i : Item V) → Live m r i → checked_item t host m r ≡ ok i
  unfolding checked_item
  checked_item-Live m r i h = rw ((==_iff r.idx m.this).1 h.0, h.1) refl

  pub Live-Cached :
      (m : Table t host) (r : Ref) (i : Item V)
      → Consistent t host m
      → Live m r i
      → Cached t host m.store i × (i.primary_itr ≡ r.itr)
  Live-Cached m r i c h =
      let (ci, p) =
        find_last-All (Cached t host m.store) (λ (x : Item V). x.primary_itr == r.itr) m.items i h.1
          c.cached in
      (ci, (==_iff i.primary_itr r.itr).0 p)

  -- What `modify` gives: the table with the object that the updater makes, of the same key, to which
  -- the reference still refers; it fails exactly where the updater changes the key.
  abbrev pub Modifies : Table t host → Ref → Item V → V → Result Failure (Table t host) → Type 0
  Modifies m r i obj (err e) = (e ≡ key_changed) × (t.primary_key i.obj ≢ t.primary_key obj)
  Modifies m r i obj (ok m') =
      (t.primary_key i.obj ≡ t.primary_key obj)
      × Wrote t host m (t.primary_key obj) (some obj) m'
      × ((i' : Item V) × (Live m' r i' × (i'.obj ≡ obj)))

  -- A table in which one item has taken the place of another with its handle and key.
  replaced-Wrote :
      (m : Table t host) (i i' : Item V) (s : Store) (next : ℕ)
      → Consistent t host m
      → Cached t host m.store i
      → i'.primary_itr ≡ i.primary_itr
      → t.primary_key i.obj ≡ t.primary_key i'.obj
      → Elsewhere t host (t.primary_key i'.obj) m.store s
      → Cached t host s i'
      → Wrote t host m (t.primary_key i'.obj) (some i'.obj) (record m {
        items = set_item t host m.items i.primary_itr i';
        next_primary_key = next;
        store = s;
      })
  replaced-Wrote m i i' s next c ci itr same f ci' =
      let k = t.primary_key i'.obj in
      let sames : All (SameKey t host i.primary_itr i') m.items =
        All-map (Cached t host m.store) (SameKey t host i.primary_itr i') m.items
          (λ x d.
            same_test t host laws hosted m.store k i.primary_itr (t.pack i.obj) x
              (ap (lookup m.store) (sym same) ∙ ci.row) d)
          c.cached in
      record {
        contents =
            contents-Elsewhere t host k (some i'.obj) m.store s f
              (content-row t host laws s k i'.primary_itr i'.obj ci'.row);
        same_this = refl;
        same_code = refl;
        consistent = record {
          filed =
              Filed-Elsewhere t host k m.store s f c.filed (Row-Cached t host s i' ci')
                (λ p. let u : none ≡ some (i'.primary_itr, t.pack i'.obj) = sym p ∙ ci'.row in cc);
          cached = set_item-Cached t host m.store s i.primary_itr i' m.items f ci' sames c.cached;
          distinct = set_item-Distinct t host i.primary_itr i' m.items sames c.distinct;
        };
      }

  modify_kept :
      (m : Table t host) (r : Ref) (i : Item V) (updater : V → V)
      → (m.code == host.current_receiver) ≡ true
      → Consistent t host m
      → Live m r i
      → t.primary_key i.obj ≡ t.primary_key (updater i.obj)
      → Modifies m r i (updater i.obj) (modify t host m r updater)
  unfolding modify
  modify_kept m r i updater own c live same =
      let obj = updater i.obj in
      let k = t.primary_key i.obj in
      let (ci, at) = Live-Cached m r i c live in
      let (s₁, q, w) =
        hosted.update_live m.store k i.primary_itr (t.pack i.obj) (t.pack obj) ci.row in
      let l =
        for_each-Looped t host k (update_index t host i.obj obj) (Entry t host i.obj)
          (Entry t host obj) (λ n e x p. update_index-Stepped i.obj obj n e x p) 0 t.extractors
          (i.iters, s₁)
          (λ n e g.
            let z : n ≡ 0 + n = omega arith in
            let p : Entry t host i.obj e (i.iters n) (sec s₁ n k) =
              rw (w.1 n k) (ci.entered n e g) in
            subst (λ n. Entry t host i.obj e (i.iters n) (sec s₁ n k)) z p) in
      let (y, s₂) = l.after in
      let (f, row) =
        Elsewhere-Looped t host (λ m. m < 0) k (some (i.primary_itr, t.pack obj)) m.store s₁ s₂
          i.iters y w l.frame in
      let i' : Item V = record { obj = obj; primary_itr = i.primary_itr; iters = y } in
      let ci' : Cached t host s₂ i' = record {
        row = ap (lookup s₂) (sym same) ∙ row;
        entered = Looped-Entered t host obj k (sym same) _ _ l;
      } in
      let f' : Elsewhere t host (t.primary_key obj) m.store s₂ =
        subst (λ k. Elsewhere t host k m.store s₂) same f in
      let found : item_at t host (set_item t host m.items i.primary_itr i') r.itr ≡ some i' =
        subst (λ h. item_at t host (set_item t host m.items i.primary_itr i') h ≡ some i') at
          (item_at-set_item t host i.primary_itr i' m.items refl
            ∙ ap (replaced t host i') (ap (item_at t host m.items) at ∙ live.1)) in
      rw
        (
          checked_item-Live m r i live,
          own,
          (==_iff (t.primary_key i.obj) (t.primary_key obj)).1 same,
          q,
          l.returns,
        )
        (
          same,
          replaced-Wrote m i i' s₂ (next_after t host k m.next_primary_key) c ci refl same f' ci',
          (i', ((live.0, found), refl)),
        )

  -- For a table of the contract's own, whose cache agrees with the host, and a reference to a cached
  -- row, `modify` fails exactly where the updater changes the primary key; else the table has the new
  -- object under its key and is the same at all others, the reference refers to it, and the cache and
  -- the host still agree.
  pub modify-content :
      (m : Table t host) (r : Ref) (i : Item V) (updater : V → V)
      → (m.code == host.current_receiver) ≡ true
      → Consistent t host m
      → Live m r i
      → Modifies m r i (updater i.obj) (modify t host m r updater)
  unfolding modify
  modify-content m r i updater own c live =
      elim (Bool-cases (t.primary_key i.obj == t.primary_key (updater i.obj))) [
        | inl p ↦
            modify_kept m r i updater own c live
              ((==_iff (t.primary_key i.obj) (t.primary_key (updater i.obj))).0 p)
        | inr p ↦
            rw (checked_item-Live m r i live, own, p)
              (
                refl,
                λ e.
                    let w = (==_iff (t.primary_key i.obj) (t.primary_key (updater i.obj))).1 e in
                    cc,
              )
      ]
