-- ===== src/MultiIndex/Singleton/Contents.antt =====
-- `singleton` of libraries/eosiolib/contracts/eosio/singleton.hpp against its one object, which may be absent.
use taurus_cdt.Prelude.{
  ℕ, ◌≡◌, ◌<◌, ◌≤◌, refl, sym, ap, ◌∙◌, true, false, ◌==◌, Option, none, some, ==_refl, ◌⊎◌, inl,
  inr, Result, ok, err, ◌>>=◌,
}
use taurus_cdt.MultiIndex.Host.{DbHost, HostLaws}
use taurus_cdt.MultiIndex.Order.{OrderLaws}
use taurus_cdt.MultiIndex.{
  Schema, Lawful, Failure, singleton_does_not_exist, Item, Ref, Table, item_at, find, emplace,
  modify, erase, or_failure, ref_to,
}
use taurus_cdt.MultiIndex.Consistency.{Consistent, content}
use taurus_cdt.MultiIndex.Find.{Unchanged, Loads, Finds, find-content}
use taurus_cdt.MultiIndex.Change.{Wrote}
use taurus_cdt.MultiIndex.Emplace.{Emplaces, emplace-content}
use taurus_cdt.MultiIndex.Modify.{Live, Live-Cached, Modifies, modify-content}
use taurus_cdt.MultiIndex.Erase.{erase-content}
use taurus_cdt.MultiIndex.Reach.{Reaches, load_at-Reaches}
use taurus_cdt.MultiIndex.Iterator.{increment, modify_at, erase_at}
use taurus_cdt.MultiIndex.Singleton.{
  is_some, exists, get, create_if_none, get_or_create, store_at, set, erase_found, remove,
}

module _ {V Key : Type 0} (t : Schema V Key) (host : DbHost Key) (pk_value : ℕ) (laws : Lawful t)
    (hosted : HostLaws host) (single : (v : V) → t.primary_key v ≡ pk_value) where
  -- The object of the singleton.
  abbrev pub stored : Table t host → Option V
  stored m = content t host m.store pk_value

  -- A table of the contract's own, whose cache agrees with the host.
  pub record Ready (m : Table t host) : Type 0 where
    pub own : (m.code == host.current_receiver) ≡ true
    pub consistent : Consistent t host m

  Ready-Unchanged :
      (m m' : Table t host)
      → Ready m
      → Unchanged t host laws hosted m m'
      → Consistent t host m'
      → Ready m'
  Ready-Unchanged m m' h u c = record { own = rw u.same_code h.own; consistent = c }

  Ready-Wrote :
      (m m' : Table t host) (v : V) (o : Option V)
      → Ready m
      → Wrote t host m (t.primary_key v) o m'
      → Ready m' × (stored m' ≡ o)
  Ready-Wrote m m' v o h w = (
    record { own = rw w.same_code h.own; consistent = w.consistent },
    w.contents pk_value ∙ rw (single v, ==_refl pk_value) refl,
  )

  found-Live :
      (m m' : Table t host) (i : Item V)
      → Loads t host laws hosted m pk_value i m'
      → Live t host laws hosted m' (ref_to t host m' i) i
  unfolding ref_to
  found-Live m m' i (p, c, u, k, h) = (refl, h)

  abbrev pub Stores : V → Result Failure (Table t host) → Type 0
  Stores v (err e) = ⊥
  Stores v (ok m') = Ready m' × (stored m' ≡ some v)

  modify-Stores :
      (m : Table t host) (r : Ref) (i : Item V) (v : V) (x : Result Failure (Table t host))
      → Ready m
      → Modifies t host laws hosted m r i v x
      → Stores v x
  modify-Stores m r i v (err e) h (f, d) = absurd (d (single i.obj ∙ sym (single v)))
  modify-Stores m r i v (ok m') h (e, w, l) = Ready-Wrote m m' v (some v) h w

  emplace-Stores :
      (m : Table t host) (v : V) (x : Result Failure (Item V × Table t host))
      → Ready m
      → stored m ≡ none
      → Emplaces t host laws hosted m v x
      → Stores v (x >>= λ (i, m'). ok m')
  emplace-Stores m v (err e) h n (f, (w, c)) =
      let u : none ≡ some w = sym n ∙ (ap (content t host m.store) (sym (single v)) ∙ c) in cc
  emplace-Stores m v (ok (i, m')) h n (f, o, w, g, z) = Ready-Wrote m m' v (some v) h w

  set-Stores :
      (m : Table t host) (v : V) (x : Result Failure (Option (Item V) × Table t host))
      → Ready m
      → Finds t host laws hosted m pk_value x
      → Stores v (x >>= λ r. store_at t host pk_value v r)
  unfolding store_at modify_at
  set-Stores m v (err e) h f = absurd f
  set-Stores m v (ok (none, m')) h (n, q) =
      let h' : Ready m' = rw q h in
      emplace-Stores m' v (emplace t host m' v) h' (rw q n)
        (emplace-content t host laws hosted m' v h'.own h'.consistent)
  set-Stores m v (ok (some i, m')) h l =
      let h' = Ready-Unchanged m m' h l.2 l.3 in
      modify-Stores m' (ref_to t host m' i) i v (modify t host m' (ref_to t host m' i) (λ r. v)) h'
        (modify-content t host laws hosted m' (ref_to t host m' i) i (λ r. v) h'.own h'.consistent
          (found-Live m m' i l))

  -- The value of a result, with a table that is ready.
  abbrev pub Reads {ℓ} : {A : Type ℓ} → A → Result Failure (A × Table t host) → Type ℓ
  Reads a r = (m : Table t host) × (r ≡ ok (a, m)) × Ready m

  found-get :
      (m : Table t host) (v : V) (x : Result Failure (Option (Item V) × Table t host))
      → Ready m
      → stored m ≡ some v
      → Finds t host laws hosted m pk_value x
      → Reads v (x >>= λ (itr, m'). or_failure itr singleton_does_not_exist >>= λ i. ok (i.obj, m'))
  found-get m v (err e) h s f = absurd f
  found-get m v (ok (none, m')) h s f = let u : none ≡ some v = sym f.0 ∙ s in cc
  found-get m v (ok (some i, m')) h s l =
      let u : some i.obj ≡ some v = sym l.1 ∙ s in
      let e : i.obj ≡ v = cc in (m', ap (λ v. ok (v, m')) e, Ready-Unchanged m m' h l.2 l.3)

  stored-get :
      (m : Table t host) (v : V) → Ready m → stored m ≡ some v → Reads v (get t host pk_value m)
  unfolding get
  stored-get m v h s =
      found-get m v (find t host m pk_value) h s
        (find-content t host laws hosted m pk_value h.consistent)

  none_obj : (o : Option V) (v : V) → o ≡ none → o ≡ some v → ⊥
  none_obj o v p q = cc

  found-exists :
      (m : Table t host) (x : Result Failure (Option (Item V) × Table t host))
      → Ready m
      → stored m ≡ none
      → Finds t host laws hosted m pk_value x
      → Reads false (x >>= λ (itr, m'). ok (is_some t host pk_value itr, m'))
  found-exists m (err e) h s f = absurd f
  found-exists m (ok (none, m')) h s f = (m', refl, rw f.1 h)
  found-exists m (ok (some i, m')) h s l = absurd (none_obj _ i.obj s l.1)

  read_back :
      (v : V) (x : Result Failure (Table t host))
      → Stores v x
      → (m' : Table t host) × (x ≡ ok m') × Reads v (get t host pk_value m')
  read_back v (err e) h = absurd h
  read_back v (ok m') (h, s) = (m', refl, stored-get m' v h s)

  -- In a singleton of the contract's own, whose cache agrees with the host, `set` always succeeds, and
  -- `get` then gives the value that was set, whether there was one before or not.
  pub set-get :
      (m : Table t host) (v : V)
      → Ready m
      → (m' : Table t host) × (set t host pk_value v m ≡ ok m') × Reads v (get t host pk_value m')
  unfolding set
  set-get m v h = read_back v _ (
      set-Stores m v (find t host m pk_value) h
        (find-content t host laws hosted m pk_value h.consistent))

  -- What is left after `remove`.
  abbrev Cleared : Result Failure (Table t host) → Type 0
  Cleared (err e) = ⊥
  Cleared (ok m') = Ready m' × (stored m' ≡ none)

  erased :
      (m : Table t host) (i : Item V)
      → Ready m
      → item_at t host m.items i.primary_itr ≡ some i
      → (m' : Table t host) × (erase t host m (ref_to t host m i) ≡ ok m')
        × Ready m'
        × (stored m' ≡ none)
  unfolding ref_to
  erased m i h l =
      let (m', e, w) =
        erase-content t host laws hosted m (ref_to t host m i) i h.own h.consistent (refl, l) in
      let (r, s) = Ready-Wrote m m' i.obj none h w in (m', e, r, s)

  reached-Cleared :
      (m : Table t host) (i : Item V) (x : Result Failure (Option (Item V) × Table t host))
      → Ready m
      → item_at t host m.items i.primary_itr ≡ some i
      → Reaches t host laws hosted m (λ j. t.primary_key i.obj < j) (λ k j. k ≤ j) x
      → Cleared (
          (x >>= λ (following, m₁).
          (erase t host m₁ (ref_to t host m₁ i) >>= λ m₂. ok (following, m₂)))
          >>= λ (following, m'). ok m')
  reached-Cleared m i (err e) h l r = absurd r
  reached-Cleared m i (ok (none, m₁)) h l r =
      let (m', e, c, d) = erased m₁ i (rw r.1 h) (rw r.1 l) in rw e (c, d)
  reached-Cleared m i (ok (some j, m₁)) h l ((p, c, u, k, g), q, b) =
      let (m', e, z, d) = erased m₁ i (Ready-Unchanged m m₁ h u k) (u.held i.primary_itr i l) in
      rw e (z, d)

  found-Cleared :
      (m : Table t host) (x : Result Failure (Option (Item V) × Table t host))
      → OrderLaws host
      → Ready m
      → Finds t host laws hosted m pk_value x
      → Cleared (x >>= λ r. erase_found t host pk_value r)
  unfolding erase_found erase_at increment
  found-Cleared m (err e) order h f = absurd f
  found-Cleared m (ok (none, m')) order h (n, q) = (rw q h, rw q n)
  found-Cleared m (ok (some i, m')) order h l =
      let h' = Ready-Unchanged m m' h l.2 l.3 in
      let ci =
        (Live-Cached t host laws hosted m' (ref_to t host m' i) i h'.consistent
          (found-Live m m' i l)).0 in
      reached-Cleared m' i _ h' l.4 (
        load_at-Reaches t host laws hosted m' (λ j. t.primary_key i.obj < j) (λ k j. k ≤ j) _
          h'.consistent
          (order.next m'.store (t.primary_key i.obj) i.primary_itr (t.pack i.obj) ci.row))

  absent :
      (x : Result Failure (Table t host))
      → Cleared x
      → (m' : Table t host) × (x ≡ ok m') × Reads false (exists t host pk_value m')
  unfolding exists
  absent (err e) h = absurd h
  absent (ok m') (h, s) = (
    m',
    refl,
    found-exists m' (find t host m' pk_value) h s
        (find-content t host laws hosted m' pk_value h.consistent),
  )

  -- In a singleton of the contract's own, whose cache agrees with the host, `remove` always succeeds, and
  -- `exists` then gives false, whether there was a value before or not.
  pub remove-exists :
      (m : Table t host)
      → OrderLaws host
      → Ready m
      → (m' : Table t host) × (remove t host pk_value m ≡ ok m')
        × Reads false (exists t host pk_value m')
  unfolding remove
  remove-exists m order h = absent _ (
      found-Cleared m (find t host m pk_value) order h
        (find-content t host laws hosted m pk_value h.consistent))

  -- The value that is there, or else the default, with a singleton that has it.
  abbrev pub Creates : Table t host → V → Result Failure (V × Table t host) → Type 0
  Creates m def (err e) = ⊥
  Creates m def (ok (v, m')) =
      ((stored m ≡ some v) ⊎ ((stored m ≡ none) × (v ≡ def))) × Ready m' × (stored m' ≡ some v)

  emplaced-Creates :
      (m m' : Table t host) (def : V) (x : Result Failure (Item V × Table t host))
      → m' ≡ m
      → Ready m
      → stored m ≡ none
      → Emplaces t host laws hosted m' def x
      → Creates m def (x >>= λ (i, m'). ok (i.obj, m'))
  emplaced-Creates m m' def (err e) q h n (f, (w, c)) =
      absurd
        (none_obj _ w n (sym (ap stored q) ∙ (ap (content t host m'.store) (sym (single def)) ∙ c)))
  emplaced-Creates m m' def (ok (i, m'')) q h n (f, o, w, g, z) =
      let (r, s) = Ready-Wrote m' m'' def (some def) (rw q h) w in
      (inr (n, o), r, s ∙ ap some (sym o))

  found-Creates :
      (m : Table t host) (def : V) (x : Result Failure (Option (Item V) × Table t host))
      → Ready m
      → Finds t host laws hosted m pk_value x
      → Creates m def (x >>= λ r. create_if_none t host pk_value def r)
  unfolding create_if_none
  found-Creates m def (err e) h f = absurd f
  found-Creates m def (ok (some i, m')) h l =
      (inl l.1, Ready-Unchanged m m' h l.2 l.3, rw (l.2).same_store l.1)
  found-Creates m def (ok (none, m')) h (n, q) =
      let h' : Ready m' = rw q h in
      emplaced-Creates m m' def (emplace t host m' def) q h n
        (emplace-content t host laws hosted m' def h'.own h'.consistent)

  -- In a singleton of the contract's own, whose cache agrees with the host, `get_or_create` always succeeds: it gives the value that is there, or else
  -- the default, and leaves a singleton that has this value.
  pub get_or_create-Creates :
      (m : Table t host) (def : V) → Ready m → Creates m def (get_or_create t host pk_value def m)
  unfolding get_or_create
  get_or_create-Creates m def h =
      found-Creates m def (find t host m pk_value) h
        (find-content t host laws hosted m pk_value h.consistent)
