-- ===== src/MultiIndex/Erase.antt =====
-- `erase` of libraries/eosiolib/contracts/eosio/multi_index.hpp against the abstract table.
use taurus_cdt.Prelude.{
  ℕ, ◌+◌, ◌<◌, ◌≡◌, ◌≢◌, refl, sym, ap, ◌∙◌, subst, List, [], ◌∷◌, true, false, ◌==◌, none, some,
  All, Option-cases, Bool-cases, inl, inr, ==_iff, arith, ok,
}
use taurus_cdt.MultiIndex.Host.{DbHost, HostLaws}
use taurus_cdt.MultiIndex.{
  Schema, Lawful, Item, Ref, Table, item_at, item_of_key, Indexed, remove_index, erase_item, erase,
}
use taurus_cdt.MultiIndex.FindLast.{find_last-All, find_last-none, All-map}
use taurus_cdt.MultiIndex.Consistency.{Entry, Cached, Distinct, Consistent, content-none}
use taurus_cdt.MultiIndex.Rounds.{Stepped, for_each-Looped}
use taurus_cdt.MultiIndex.Find.{item_at-item_of_key}
use taurus_cdt.MultiIndex.Change.{
  Elsewhere, Filed-Elsewhere, Cached-Elsewhere, Wrote, contents-Elsewhere, Elsewhere-Looped,
  EntrySet-Frame,
}
use taurus_cdt.MultiIndex.Modify.{Live, Live-Cached, checked_item-Live, known_iter-Entry}

module _ {V Key : Type 0} (t : Schema V Key) (host : DbHost Key) (laws : Lawful t)
    (hosted : HostLaws host) where
  open host use {Store, lookup, sec}

  remove_index-Stepped :
      (obj : V) (n : ℕ) (e : V → Key) (x : Indexed t host)
      → Entry t host obj e (x.0 n) (sec x.1 n (t.primary_key obj))
      → Stepped t host
          (t.primary_key obj)
          (λ e iter entry. entry ≡ none)
          n
          e
          x
          (remove_index t host (t.primary_key obj) n e x)
  unfolding remove_index
  remove_index-Stepped obj n e (x, s) w =
      let k = t.primary_key obj in
      let (s', q, c) = hosted.idx_remove_live s n k w.handle (e obj) w.entered in
      let (f, i) = EntrySet-Frame t host s s' n k none x x c (λ m d. refl) in
      record {
        after = (x, s');
        returns = rw (remove_index, known_iter-Entry t host laws hosted obj e n k (x, s) w, q) refl;
        done = i;
        frame = f;
      }

  erase_item-All {κ} :
      (P : Item V → Type κ) (k : ℕ) (xs : List (Item V)) → All P xs → All P (erase_item t host xs k)
  unfolding erase_item
  erase_item-All P k [] h = tt
  erase_item-All P k (x ∷ xs) h = elim (Option-cases (item_of_key t host xs k)) [
    | inr (y, q) ↦ rw (erase_item, q) (h.0, erase_item-All P k xs h.1)
    | inl q ↦ elim (Bool-cases (t.primary_key x.obj == k)) [
      | inl p ↦ rw (erase_item, q, p) h.1
      | inr p ↦ rw (erase_item, q, p) h
    ]
  ]

  erase_item-Distinct :
      (k : ℕ) (xs : List (Item V)) → Distinct t host xs → Distinct t host (erase_item t host xs k)
  unfolding erase_item
  erase_item-Distinct k [] h = tt
  erase_item-Distinct k (x ∷ xs) h = elim (Option-cases (item_of_key t host xs k)) [
    | inr (y, q) ↦
        rw (erase_item, q)
          (
            erase_item-All (λ y. t.primary_key y.obj ≢ t.primary_key x.obj) k xs h.0,
            erase_item-Distinct k xs h.1,
          )
    | inl q ↦ elim (Bool-cases (t.primary_key x.obj == k)) [
      | inl p ↦ rw (erase_item, q, p) h.1
      | inr p ↦ rw (erase_item, q, p) h
    ]
  ]

  ==_ne : (a b : ℕ) → (a == b) ≡ false → a ≢ b
  ==_ne a b p e = let w = (==_iff a b).1 e in cc

  -- No item with the key is left.
  erase_item-gone :
      (k : ℕ) (xs : List (Item V))
      → Distinct t host xs
      → All (λ (x : Item V). t.primary_key x.obj ≢ k) (erase_item t host xs k)
  unfolding erase_item
  erase_item-gone k [] h = tt
  erase_item-gone k (x ∷ xs) h = elim (Option-cases (item_of_key t host xs k)) [
    | inr (y, q) ↦
        (let (d, p) =
            find_last-All (λ (y : Item V). t.primary_key y.obj ≢ t.primary_key x.obj)
              (λ (y : Item V). t.primary_key y.obj == k) xs y q h.0 in
          rw (erase_item, q)
            (λ e. d ((==_iff (t.primary_key y.obj) k).0 p ∙ sym e), erase_item-gone k xs h.1))
    | inl q ↦
        (let others =
            All-map (λ (y : Item V). (t.primary_key y.obj == k) ≡ false)
              (λ (y : Item V). t.primary_key y.obj ≢ k) xs (λ y p. ==_ne (t.primary_key y.obj) k p)
              (find_last-none (λ (y : Item V). t.primary_key y.obj == k) xs q) in
          elim (Bool-cases (t.primary_key x.obj == k)) [
            | inl p ↦ rw (erase_item, q, p) others
            | inr p ↦ rw (erase_item, q, p) (==_ne (t.primary_key x.obj) k p, others)
          ])
  ]

  Cached-rest :
      (k : ℕ) (s s' : Store) (xs : List (Item V))
      → Elsewhere t host k s s'
      → All (λ (x : Item V). t.primary_key x.obj ≢ k) xs
      → All (Cached t host s) xs
      → All (Cached t host s') xs
  Cached-rest k s s' [] f d c = tt
  Cached-rest k s s' (x ∷ xs) f d c =
      (Cached-Elsewhere t host k s s' x f d.0 c.0, Cached-rest k s s' xs f d.1 c.1)

  -- For a table of the contract's own, whose cache agrees with the host, and a reference to a cached
  -- row, `erase` succeeds: the table has no object under its key and is the same at all others, and the
  -- cache and the host still agree, so that no index has an entry of the key.
  pub erase-content :
      (m : Table t host) (r : Ref) (i : Item V)
      → (m.code == host.current_receiver) ≡ true
      → Consistent t host m
      → Live t host laws hosted m r i
      → (m' : Table t host) × (erase t host m r ≡ ok m')
        × Wrote t host m (t.primary_key i.obj) none m'
  unfolding erase
  erase-content m r i own c live =
      let k = t.primary_key i.obj in
      let (ci, at) = Live-Cached t host laws hosted m r i c live in
      let held =
        sym (
          item_at-item_of_key t host laws hosted m.store m.items k i.primary_itr (t.pack i.obj)
            ci.row c.cached)
        ∙ (ap (item_at t host m.items) at ∙ live.1) in
      let (s₁, q, w) = hosted.remove_live m.store k i.primary_itr (t.pack i.obj) ci.row in
      let l =
        for_each-Looped t host k (remove_index t host k) (Entry t host i.obj)
          (λ e iter entry. entry ≡ none) (λ n e x p. remove_index-Stepped i.obj n e x p) 0
          t.extractors (i.iters, s₁)
          (λ n e g.
            let z : n ≡ 0 + n = omega arith in
            let p : Entry t host i.obj e (i.iters n) (sec s₁ n k) =
              rw (w.1 n k) (ci.entered n e g) in
            subst (λ n. Entry t host i.obj e (i.iters n) (sec s₁ n k)) z p) in
      let (y, s₂) = l.after in
      let (f, row) =
        Elsewhere-Looped t host (λ m. m < 0) k none m.store s₁ s₂ i.iters y w l.frame in
      let items = erase_item t host m.items k in
      (
        record m { items = items; store = s₂ },
        rw (checked_item-Live t host laws hosted m r i live, own, held, q, l.returns) refl,
        record {
          contents = contents-Elsewhere t host k none m.store s₂ f (content-none t host s₂ k row);
          same_this = refl;
          same_code = refl;
          consistent = record {
            filed =
                Filed-Elsewhere t host k m.store s₂ f c.filed
                  (λ h b p. let u : none ≡ some (h, b) = sym row ∙ p in cc)
                  (λ p n e g.
                    let z : 0 + n ≡ n = omega arith in
                    subst (λ n. sec s₂ n k ≡ none) z (l.done n e g));
            cached =
                Cached-rest k m.store s₂ items f (erase_item-gone k m.items c.distinct)
                  (erase_item-All (Cached t host m.store) k m.items c.cached);
            distinct = erase_item-Distinct k m.items c.distinct;
          };
        },
      )
