-- ===== src/MultiIndex/Change.antt =====
-- A change of one row and its entries, in libraries/eosiolib/contracts/eosio/multi_index.hpp: what it leaves as
-- it was, and when the host and the cache still agree.
use taurus_cdt.Prelude.{
  ℕ, ◌+◌, ◌≡◌, ◌≢◌, refl, sym, ap, ◌∙◌, subst, List, ◌&&◌, Bool, true, false, ◌==◌, if◌then◌else◌,
  Option, none, some, get_elem?, Bool-cases, inl, inr, ==_iff, ==_refl, ne→==-false, arith, Result,
}
use taurus_cdt.MultiIndex.Host.{DbHost, RowSet, EntrySet}
use taurus_cdt.MultiIndex.{Schema, Failure, Item, Table, Indexed, with_iter}
use taurus_cdt.MultiIndex.Consistency.{
  Entry, Entered, Row, Filed, Cached, Consistent, content, content-lookup,
}
use taurus_cdt.MultiIndex.Rounds.{Frame, Looped}

module _ {V Key : Type 0} (t : Schema V Key) (host : DbHost Key) where
  open host use {Store, lookup, sec}

  -- Only the row and the entries of a key differ.
  pub record Elsewhere (k : ℕ) (s s' : Store) : Type 0 where
    pub rows : (j : ℕ) → j ≢ k → lookup s' j ≡ lookup s j
    pub entries : (n j : ℕ) → j ≢ k → sec s' n j ≡ sec s n j

  Entered-Elsewhere :
      (k : ℕ) (s s' : Store) (v : V) (iters : ℕ → Option ℕ)
      → Elsewhere k s s'
      → t.primary_key v ≢ k
      → Entered t host s v iters
      → Entered t host s' v iters
  Entered-Elsewhere k s s' v iters f d h n e q = rw (f.entries n (t.primary_key v) d) (h n e q)

  pub Entered-forget :
      (s : Store) (v : V) (iters : ℕ → Option ℕ)
      → Entered t host s v iters
      → Entered t host s v (λ n. none)
  Entered-forget s v iters h n e q =
      let w = h n e q in record { handle = w.handle; entered = w.entered; remembered = λ g r. cc }

  -- The rows are in order after a change that leaves the row it changes in order.
  pub Filed-Elsewhere :
      (k : ℕ) (s s' : Store)
      → Elsewhere k s s'
      → Filed t host s
      → ((h : ℕ) (b : List ℕ) → lookup s' k ≡ some (h, b) → Row t host s' k h b)
      → (lookup s' k ≡ none
          → (n : ℕ) (e : V → Key) → get_elem? t.extractors n ≡ some e
          → sec s' n k ≡ none)
      → Filed t host s'
  Filed-Elsewhere k s s' f v here bare = record {
    rows = λ j h b r. elim (Bool-cases (j == k)) [
      | inl p ↦
          (let q : k ≡ j = sym ((==_iff j k).0 p) in
            subst (λ j. Row t host s' j h b) q (here h b (ap (lookup s') q ∙ r)))
      | inr p ↦
          (let d : j ≢ k = λ e. (let w = (==_iff j k).1 e in cc) in
            let row = v.rows j h b (sym (f.rows j d) ∙ r) in
            record {
              obj = row.obj;
              packed = row.packed;
              keyed = row.keyed;
              entered =
                  Entered-Elsewhere k s s' row.obj (λ n. none) f (λ e. d (sym row.keyed ∙ e))
                    row.entered;
            })
    ];
    bare = λ j n e r g. elim (Bool-cases (j == k)) [
      | inl p ↦
          (let q : k ≡ j = sym ((==_iff j k).0 p) in
            subst (λ j. sec s' n j ≡ none) q (bare (ap (lookup s') q ∙ r) n e g))
      | inr p ↦
          (let d : j ≢ k = λ e. (let w = (==_iff j k).1 e in cc) in
            f.entries n j d ∙ v.bare j n e (sym (f.rows j d) ∙ r) g)
    ];
  }

  pub Cached-Elsewhere :
      (k : ℕ) (s s' : Store) (i : Item V)
      → Elsewhere k s s'
      → t.primary_key i.obj ≢ k
      → Cached t host s i
      → Cached t host s' i
  Cached-Elsewhere k s s' i f d c = record {
    row = f.rows (t.primary_key i.obj) d ∙ c.row;
    entered = Entered-Elsewhere k s s' i.obj i.iters f d c.entered;
  }

  -- The abstract change: one key has another object, or none.
  pub record Wrote (m : Table t host) (k : ℕ) (o : Option V) (m' : Table t host) : Type 0 where
    pub contents :
        (j : ℕ) → content t host m'.store j ≡ (if j == k then o else content t host m.store j)
    pub same_this : m'.this ≡ m.this
    pub same_code : m'.code ≡ m.code
    pub consistent : Consistent t host m'

  pub contents-Elsewhere :
      (k : ℕ) (o : Option V) (s s' : Store)
      → Elsewhere k s s'
      → content t host s' k ≡ o
      → (j : ℕ) → content t host s' j ≡ (if j == k then o else content t host s j)
  contents-Elsewhere k o s s' f h j = elim (Bool-cases (j == k)) [
    | inl p ↦ (let q : j ≡ k = (==_iff j k).0 p in rw p (ap (content t host s') q ∙ h))
    | inr p ↦
        (let d : j ≢ k = λ e. (let w = (==_iff j k).1 e in cc) in
          rw p (content-lookup t host s s' j j (f.rows j d)))
  ]

  -- A change of a row, and then of its entries.
  pub Elsewhere-Looped :
      (Kept : ℕ → Type 0) (k : ℕ) (r : Option (ℕ × List ℕ)) (s s₁ s₂ : Store) (x y : ℕ → Option ℕ)
      → RowSet host s k r s₁
      → Frame t host k Kept (x, s₁) (y, s₂)
      → Elsewhere k s s₂ × (lookup s₂ k ≡ r)
  Elsewhere-Looped Kept k r s s₁ s₂ x y h f = (
    record {
      rows = λ j d. f.rows j ∙ (h.0 j ∙ rw (ne→==-false j k d) refl);
      entries = λ n j d. f.others n j d ∙ h.1 n j;
    },
    f.rows k ∙ (h.0 k ∙ rw (==_refl k) refl),
  )

  &&-false : (p : Bool) → (p && false) ≡ false
  &&-false true = refl
  &&-false false = refl

  -- A change of one entry, with what the item remembers of it.
  pub EntrySet-Frame :
      (s s' : Store) (n k : ℕ) (r : Option (ℕ × Key)) (x y : ℕ → Option ℕ)
      → EntrySet host s n k r s'
      → ((m : ℕ) → m ≢ n → y m ≡ x m)
      → Frame t host k (λ m. m ≢ n) (x, s) (y, s') × (sec s' n k ≡ r)
  EntrySet-Frame s s' n k r x y h it = (
    record {
      rows = h.0;
      others = λ m j d. h.1 m j ∙ rw (ne→==-false j k d, &&-false (m == n)) refl;
      kept_entry = λ m d. h.1 m k ∙ rw (ne→==-false m n d) refl;
      kept_iter = it;
    },
    h.1 n k ∙ rw (==_refl n, ==_refl k) refl,
  )

  pub with_iter-remembered :
      (x : ℕ → Option ℕ) (n g g' : ℕ) → with_iter t host x n (some g) n ≡ some g' → g' ≡ g
  with_iter-remembered x n g g' r = let q : some g ≡ some g' = rw (==_refl n) at r in cc

  abbrev second : List ℕ → Option (ℕ × List ℕ) → List ℕ
  second d none = d
  second d (some (h, b)) = b

  -- A row that holds the object of an item, with all its entries.
  pub Row-Cached :
      (s : Store) (i : Item V)
      → Cached t host s i
      → (h : ℕ) (b : List ℕ) → lookup s (t.primary_key i.obj) ≡ some (h, b)
      → Row t host s (t.primary_key i.obj) h b
  Row-Cached s i c h b r =
      let q : some (h, b) ≡ some (i.primary_itr, t.pack i.obj) = sym r ∙ c.row in
      let p : b ≡ t.pack i.obj = ap (second b) q in
      record {
        obj = i.obj;
        packed = p;
        keyed = refl;
        entered = Entered-forget s i.obj i.iters c.entered;
      }

  -- After a loop over all indices, each has its entry.
  pub Looped-Entered :
      (obj : V) (k : ℕ)
      → t.primary_key obj ≡ k
      → (x : Indexed t host) (r : Result Failure (Indexed t host))
      → (l : Looped t host k (Entry t host obj) 0 t.extractors x r)
      → Entered t host l.after.1 obj l.after.0
  Looped-Entered obj k at x r l n e q =
      let z : 0 + n ≡ n = omega arith in
      rw at (subst (λ m. Entry t host obj e (l.after.0 m) (sec l.after.1 m k)) z (l.done n e q))
