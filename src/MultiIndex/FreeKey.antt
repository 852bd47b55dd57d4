-- ===== src/MultiIndex/FreeKey.antt =====
-- `emplace` of libraries/eosiolib/contracts/eosio/multi_index.hpp under the key of `available_primary_key`.
use taurus_cdt.Prelude.{
  ℕ, ◌+◌, ◌≡◌, ◌<◌, refl, sym, ◌∙◌, subst, true, ◌==◌, leb, if◌then◌else◌, none, some, Option-cases,
  Bool-cases, inl, inr, ==_iff, leb→le, leb-false→lt, arith, Result, ok, err,
}
use taurus_cdt.MultiIndex.Host.{DbHost, HostLaws}
use taurus_cdt.MultiIndex.Order.{OrderLaws}
use taurus_cdt.MultiIndex.{
  Schema, Lawful, Failure, Item, Table, no_available_primary_key, next_after, emplace,
}
use taurus_cdt.MultiIndex.Consistency.{Consistent, content}
use taurus_cdt.MultiIndex.Change.{Wrote}
use taurus_cdt.MultiIndex.Emplace.{Emplaces, emplace-content}
use taurus_cdt.MultiIndex.Iterator.{available_primary_key}
use taurus_cdt.MultiIndex.NextKey.{Above, Ahead, Available, available_primary_key-Above}

module _ {V Key : Type 0} (t : Schema V Key) (host : DbHost Key) (laws : Lawful t)
    (hosted : HostLaws host) where
  open host use {Store}

  Above-add :
      (s s' : Store) (k next : ℕ) (v : V)
      → ((j : ℕ) → content t host s' j ≡ (if j == k then some v else content t host s j))
      → Above t host laws hosted s next
      → k < next
      → Above t host laws hosted s' next
  Above-add s s' k next v w h l j n = elim (Bool-cases (j == k)) [
    | inl p ↦ (let q = (==_iff j k).0 p in omega (arith, q, l))
    | inr p ↦ h j (λ e. n (w j ∙ rw p e))
  ]

  next_after-Ahead :
      (m m' : Table t host) (k : ℕ) (v : V)
      → ((j : ℕ)
          → content t host m'.store j ≡ (if j == k then some v else content t host m.store j))
      → m'.next_primary_key ≡ next_after t host k m.next_primary_key
      → Ahead t host laws hosted m
      → Ahead t host laws hosted m'
  unfolding next_after
  next_after-Ahead m m' k v w e a = elim (Bool-cases (leb m.next_primary_key k)) [
    | inr p ↦
        (let e' : m'.next_primary_key ≡ m.next_primary_key = rw p at e in
          rw e' (
            a.0,
            λ f.
                Above-add m.store m'.store k m.next_primary_key v w (a.1 f)
                  (leb-false→lt m.next_primary_key k p),
          ))
    | inl p ↦ elim (Bool-cases (leb no_available_primary_key k)) [
      | inl q ↦
          (let e' : m'.next_primary_key ≡ no_available_primary_key = rw (p, q) at e in
            rw e' (omega arith, λ f. absurd (omega (arith, f))))
      | inr q ↦
          (let e' : m'.next_primary_key ≡ k + 1 = rw (p, q) at e in
            let lt = leb-false→lt no_available_primary_key k q in
            let le = leb→le m.next_primary_key k p in
            rw e' (
              omega (arith, lt),
              λ f.
                  Above-add m.store m'.store k (k + 1) v w
                    (λ j n. let b = a.1 (omega (arith, lt, le)) j n in omega (arith, b, le))
                    (omega arith),
            ))
    ]
  ]

  emplaced_next :
      (m : Table t host) (obj : V) (r : Result Failure (Item V × Table t host))
      → content t host m.store (t.primary_key obj) ≡ none
      → Ahead t host laws hosted m
      → Emplaces t host laws hosted m obj r
      → (i : Item V) × (m' : Table t host) × (r ≡ ok (i, m'))
        × Wrote t host m (t.primary_key obj) (some obj) m'
        × Ahead t host laws hosted m'
  emplaced_next m obj (err e) n a (f, (v, c)) = (let u : none ≡ some v = sym n ∙ c in cc)
  emplaced_next m obj (ok (i, m')) n a (f, o, w, g, e) =
      (i, m', refl, w, next_after-Ahead m m' (t.primary_key obj) obj w.contents e a)

  -- For a table of the contract's own, whose cache agrees with the host, and whose next key, where it is
  -- set, is above all keys in use, an object under the key that `available_primary_key` gave is always stored by `emplace`: the table has it under that key and is
  -- the same at all others, and the next key is again above all those in use.
  pub available_primary_key-emplace :
      (m m' : Table t host) (k : ℕ) (obj : V)
      → OrderLaws host
      → Consistent t host m
      → Ahead t host laws hosted m
      → available_primary_key t host m ≡ ok (k, m')
      → (m'.code == host.current_receiver) ≡ true
      → t.primary_key obj ≡ k
      → (i : Item V) × (m'' : Table t host) × (emplace t host m' obj ≡ ok (i, m''))
        × Wrote t host m' (t.primary_key obj) (some obj) m''
        × Ahead t host laws hosted m''
  available_primary_key-emplace m m' k obj order c a e own q =
      let h : Available t host laws hosted m (ok (k, m')) =
        subst (Available t host laws hosted m) e
          (available_primary_key-Above t host laws hosted m order c a) in
      let (lt, above, s, c', a') = h in
      let free : content t host m'.store (t.primary_key obj) ≡ none =
        elim (Option-cases (content t host m.store k)) [
          | inl n ↦ rw (s, q) n
          | inr (v, n) ↦
              absurd (omega (arith, above k (λ z. let u : none ≡ some v = sym z ∙ n in cc)))
        ] in
      emplaced_next m' obj _ free a' (emplace-content t host laws hosted m' obj own c')
