-- ===== src/Kv/Table/Consistency.antt =====
-- `table::put` of kv.hpp as an update of the set of rows.
use taurus_cdt.Prelude.{
  ◌≡◌, ◌≢◌, sym, ap, ◌∙◌, subst, List, [], ◌∷◌, Option, none, some, Result, ok, err, ◌>>=◌, inl,
  inr, ◌⊎◌, All, ◌↔◌, Option-cases,
}
use taurus_cdt.Kv.Keys.{Bytes, full_key}
use taurus_cdt.Kv.Host.{KvHost}
use taurus_cdt.Kv.Table.{
  Index, Schema, Lawful, Failure, make_prefix, index_key, put_indices, put, read_old, serialize,
}
use taurus_cdt.Kv.Table.Rows.{
  Stored, PrimarySound, Synced, Consistent, AllApart, deserialize-serialize, serialize-injective,
  Stored-unique, get-set_self, get-set_ne, bytes_dec, index_key-name,
}
use taurus_cdt.Kv.Table.Put.{Old, New, Clash, Loop, Beyond, put_indices-Loop, no-Clash}

-- The names of a table's indices are all different.
pub record Named {V : Type 0} (t : Schema V) : Type 0 where
  pub from_primary : All (λ i. i.name ≢ t.primary.name) t.secondary
  pub apart : AllApart t.secondary

module _ {V : Type 0} (t : Schema V) (host : KvHost) (law : Lawful t) (names : Named t)
    (s : host.Store) (con : Consistent t host s) (v : V) where
  open host use {Store, kv_get, kv_set, kv_erase}

  abbrev unique :
      (a b : V) → Stored t host s a → Stored t host s b → t.primary.key a ≡ t.primary.key b → a ≡ b
  unique = Stored-unique t host law s

  abbrev tbl_key : Bytes
  tbl_key = index_key t t.primary v

  abbrev OldRow : Option V → Type 0
  OldRow = Old t host law (Stored t host s) unique v

  -- The read at the head of `put` finds the row with the same primary key, if there is one.
  find_old : (old : Option V) × OldRow old × (read_old t host (kv_get s tbl_key) ≡ ok old)
  unfolding index_key read_old
  find_old = elim (Option-cases (kv_get s tbl_key)) [
    | inl e ↦ (
      none,
      λ u r p. cc (
        e,
        subst (λ k. kv_get s (full_key (make_prefix t t.primary.name) k) ≡ some (serialize t u)) p
            r,
      ),
      rw e,
    )
    | inr (bytes, e) ↦
        let (w, b, p) = con.primary (t.primary.key v) bytes e in
        (
          some w,
          (
            subst (λ k. kv_get s (full_key (make_prefix t t.primary.name) k) ≡ some (serialize t w))
                (sym p) (e ∙ ap some b),
            p,
          ),
          rw (e, b, deserialize-serialize t host law w),
        )
  ]

  module _ (s₁ : host.Store)
      (indices : All (New t host law (Stored t host s) unique v s₁) t.secondary)
      (beyond : Beyond t host law (Stored t host s) unique v t.secondary s s₁) where
    abbrev s₂ : host.Store
    s₂ = kv_set s₁ tbl_key (serialize t v)

    abbrev slot : Bytes → Bytes
    slot k = full_key (make_prefix t t.primary.name) k

    read_self : kv_get s₂ tbl_key ≡ some (serialize t v)
    read_self = get-set_self t host s₁ tbl_key (serialize t v)

    read_other : (k : Bytes) → t.primary.key v ≢ k → kv_get s₂ (slot k) ≡ kv_get s (slot k)
    unfolding index_key
    read_other k n =
        get-set_ne t host s₁ tbl_key (serialize t v) (slot k)
          (λ p. n (index_key-name t host law t.primary t.primary _ _ p).1)
        ∙ beyond t.primary k names.from_primary

    abbrev Now : V → Type 0
    Now u = (u ≡ v) ⊎ (Stored t host s u × (t.primary.key u ≢ t.primary.key v))

    Stored-Now : (u : V) → Stored t host s₂ u ↔ Now u
    unfolding index_key
    Stored-Now u = (
      λ g. elim (bytes_dec (t.primary.key v) (t.primary.key u)) [
        | inl p ↦
            let h = subst (λ k. kv_get s₂ (slot k) ≡ some (serialize t u)) (sym p) g in
            inl (serialize-injective t host law u v (cc (h, read_self)))
        | inr n ↦ inr (sym (read_other (t.primary.key u) n) ∙ g, λ p. n (sym p))
      ],
      λ c. elim c [
        | inl p ↦ rw p read_self
        | inr (g, n) ↦ read_other (t.primary.key u) (λ p. n (sym p)) ∙ g
      ],
    )

    primary_now : PrimarySound t host s₂
    unfolding index_key
    primary_now k bytes g = elim (bytes_dec (t.primary.key v) k) [
      | inl p ↦
          let h = subst (λ x. kv_get s₂ (slot x) ≡ some bytes) (sym p) g in
          (v, cc (h, read_self), p)
      | inr n ↦ con.primary k bytes (sym (read_other k n) ∙ g)
    ]

    index_now :
        (i : Index V)
        → i.name ≢ t.primary.name
        → New t host law (Stored t host s) unique v s₁ i
        → Synced t host (Stored t host s₂) s₂ i
    unfolding index_key
    index_now i n sync =
        let aside = λ (k : Bytes).
          get-set_ne t host s₁ tbl_key (serialize t v) (full_key (make_prefix t i.name) k)
            (λ p. n (sym (index_key-name t host law t.primary i (t.primary.key v) k p).0)) in
        record {
          leads = λ u g. aside (i.key u) ∙ sync.leads u ((Stored-Now u).0 g);
          sound = λ k bytes g.
              let (u, r, p, q) = sync.sound k bytes (sym (aside k) ∙ g) in
              (u, (Stored-Now u).1 r, p, q);
        }

    indices_now :
        (is : List (Index V))
        → All (λ i. i.name ≢ t.primary.name) is
        → All (New t host law (Stored t host s) unique v s₁) is
        → All (Synced t host (Stored t host s₂) s₂) is
    indices_now [] n h = tt
    indices_now (i ∷ is) (n, ns) (h, hs) = (index_now i n h, indices_now is ns hs)

    Consistent_now : Consistent t host s₂
    Consistent_now = record {
      primary = primary_now;
      indices = indices_now t.secondary names.from_primary indices;
    }

  -- Another row has one of the secondary keys of `v`.
  abbrev pub Taken : Type 0
  Taken = Clash t host law (Stored t host s) unique v t.secondary

  abbrev pub Outcome : Result Failure Store → Type 0
  Outcome (err e) = Taken
  Outcome (ok s') =
      ¬ Taken
      × Consistent t host s'
      × ((u : V)
          → Stored t host s' u
            ↔ ((u ≡ v) ⊎ (Stored t host s u × (t.primary.key u ≢ t.primary.key v))))

  after-Loop :
      (r : Result Failure Store)
      → Loop t host law (Stored t host s) unique v s t.secondary r
      → Outcome (r >>= λ s₁. ok (kv_set s₁ tbl_key (serialize t v)))
  after-Loop (err e) c = c
  after-Loop (ok s₁) (h, b) = (
    no-Clash t host law (Stored t host s) unique v s₁ t.secondary h,
    Consistent_now s₁ h b,
    Stored-Now s₁ h b,
  )

  -- With a lawful codec and distinct names of the indices, `put` on a consistent table, whatever row
  -- it is given: either another row has one of its
  -- secondary keys, and the call fails; or no row has, and the call succeeds, the table is
  -- consistent, and its rows are the given one and the old ones with another primary key.
  pub put-Outcome : Outcome (put t host s v)
  unfolding put
  put-Outcome =
      let (old, o, e) = find_old in
      rw e (
        after-Loop (put_indices t host s tbl_key old v t.secondary) (
          put_indices-Loop t host law (Stored t host s) unique v old t.secondary s o names.apart
            con.indices))
