-- ===== src/MultiIndex/Replace.antt =====
-- A cached item that takes the place of the item of its handle, in libraries/eosiolib/contracts/eosio/multi_index.hpp.
use taurus_cdt.Prelude.{
  ℕ, ◌≡◌, ◌≢◌, refl, sym, ◌∙◌, subst, List, [], ◌∷◌, ◌==◌, if◌then◌else◌, Option, none, some, All,
  Option-cases, Bool-cases, inl, inr, ==_iff,
}
use taurus_cdt.MultiIndex.Host.{DbHost}
use taurus_cdt.MultiIndex.{Schema, Item, find_last, item_at, set_item}
use taurus_cdt.MultiIndex.Consistency.{Cached, Distinct}
use taurus_cdt.MultiIndex.Change.{Elsewhere, Cached-Elsewhere}

module _ {V Key : Type 0} (t : Schema V Key) (host : DbHost Key) where
  open host use {Store, lookup, sec}

  -- The items of this handle have this key.
  abbrev pub SameKey : ℕ → Item V → Item V → Type 0
  SameKey h i x = (x.primary_itr == h) ≡ (t.primary_key x.obj == t.primary_key i.obj)

  key_replaced :
      (h : ℕ) (i x : Item V)
      → SameKey h i x
      → t.primary_key (if x.primary_itr == h then i else x).obj ≡ t.primary_key x.obj
  key_replaced h i x e = elim (Bool-cases (x.primary_itr == h)) [
    | inl p ↦ rw p (sym ((==_iff (t.primary_key x.obj) (t.primary_key i.obj)).0 (sym e ∙ p)))
    | inr p ↦ rw p refl
  ]

  set_item-other :
      (h c : ℕ) (i : Item V) (xs : List (Item V))
      → All (SameKey h i) xs
      → All (λ (y : Item V). t.primary_key y.obj ≢ c) xs
      → All (λ (y : Item V). t.primary_key y.obj ≢ c) (set_item t host xs h i)
  unfolding set_item
  set_item-other h c i [] e d = tt
  set_item-other h c i (x ∷ xs) e d =
      (λ q. d.0 (sym (key_replaced h i x e.0) ∙ q), set_item-other h c i xs e.1 d.1)

  pub set_item-Distinct :
      (h : ℕ) (i : Item V) (xs : List (Item V))
      → All (SameKey h i) xs
      → Distinct t host xs
      → Distinct t host (set_item t host xs h i)
  unfolding set_item
  set_item-Distinct h i [] e d = tt
  set_item-Distinct h i (x ∷ xs) e d = (
    subst (λ c. All (λ (y : Item V). t.primary_key y.obj ≢ c) (set_item t host xs h i))
        (sym (key_replaced h i x e.0)) (set_item-other h (t.primary_key x.obj) i xs e.1 d.0),
    set_item-Distinct h i xs e.1 d.1,
  )

  pub set_item-Cached :
      (s s' : Store) (h : ℕ) (i : Item V) (xs : List (Item V))
      → Elsewhere t host (t.primary_key i.obj) s s'
      → Cached t host s' i
      → All (SameKey h i) xs
      → All (Cached t host s) xs
      → All (Cached t host s') (set_item t host xs h i)
  unfolding set_item
  set_item-Cached s s' h i [] f ci e c = tt
  set_item-Cached s s' h i (x ∷ xs) f ci e c = (
    elim (Bool-cases (x.primary_itr == h)) [
      | inl p ↦ rw p ci
      | inr p ↦ rw p (
          Cached-Elsewhere t host (t.primary_key i.obj) s s' x f
            (λ q.
              let w = (==_iff (t.primary_key x.obj) (t.primary_key i.obj)).1 q in let u = e.0 in cc)
            c.0)
    ],
    set_item-Cached s s' h i xs f ci e.1 c.1,
  )

  abbrev pub replaced : Item V → Option (Item V) → Option (Item V)
  replaced i none = none
  replaced i (some x) = some i

  pub item_at-set_item :
      (h : ℕ) (i : Item V) (xs : List (Item V))
      → i.primary_itr ≡ h
      → item_at t host (set_item t host xs h i) h ≡ replaced i (item_at t host xs h)
  unfolding set_item find_last
  item_at-set_item h i [] e = refl
  item_at-set_item h i (x ∷ xs) e =
      let r = item_at-set_item h i xs e in
      elim (Option-cases (item_at t host xs h)) [
        | inr (y, q) ↦ rw (r, q) refl
        | inl q ↦ elim (Bool-cases (x.primary_itr == h)) [
          | inl p ↦ rw (r, q, p) (let w = (==_iff i.primary_itr h).1 e in rw w refl)
          | inr p ↦ rw (r, q, p) (rw p refl)
        ]
      ]
