-- ===== src/Kv/Table/Get.antt =====
-- `kv_index::get` of kv.hpp: on a consistent table it finds the row that has the key. And a call of
-- `erase` with a row that is out of date, after which it does not.
use taurus_cdt.Prelude.{
  ℕ, zero, suc, ◌≡◌, ◌≢◌, sym, ap, ◌∙◌, subst, List, [], ◌∷◌, Option, none, some, Result, ok, err,
  arith, inl, inr, ◌⊎◌, All, get_elem?, Option-cases, true, false, ◌==◌,
}
use taurus_cdt.Kv.Keys.{Bytes, full_key}
use taurus_cdt.Kv.Host.{KvHost}
use taurus_cdt.Kv.Table.{
  Index, Schema, Lawful, Failure, make_prefix, index_key, erase_indices, erase, serialize, read_old,
  get, no_primary_row,
}
use taurus_cdt.Kv.Table.Rows.{
  Stored, Synced, Consistent, index_key-name, get-erase_self, get-erase_ne, deserialize-serialize,
}
use taurus_cdt.Kv.Table.Consistency.{Named}

module _ {V : Type 0} (t : Schema V) (host : KvHost) (law : Lawful t) where
  open host use {Store, kv_get, kv_set, kv_erase}

  abbrev pub Found : Store → Index V → Bytes → Result Failure (Option V) → Type 0
  Found s i k (ok none) = (u : V) → Stored t host s u → i.key u ≢ k
  Found s i k (ok (some u)) = Stored t host s u × (i.key u ≡ k)
  Found s i k (err e) = ⊥

  -- An index of the table.
  abbrev pub Belongs : Index V → Type 0
  Belongs i = (i ≡ t.primary) ⊎ (n : ℕ) × (get_elem? t.secondary n ≡ some i)

  read_row : (w : V) → read_old t host (some (serialize t w)) ≡ ok (some w)
  unfolding read_old
  read_row w = rw (deserialize-serialize t host law w)

  nth_Synced :
      (P : V → Type 0) (s : Store) (is : List (Index V)) (n : ℕ) (i : Index V)
      → All (Synced t host P s) is
      → All (λ j. j.name ≢ t.primary.name) is
      → get_elem? is n ≡ some i
      → Synced t host P s i × (i.name ≢ t.primary.name)
  nth_Synced P s [] n i h a e = cc
  nth_Synced P s (j ∷ is) zero i (h, hs) (a, aa) e =
      let p : j ≡ i = cc in subst (λ x. Synced t host P s x × (x.name ≢ t.primary.name)) p (h, a)
  nth_Synced P s (j ∷ is) (suc n) i (h, hs) (a, aa) e = nth_Synced P s is n i hs aa e

  get-none :
      (s : Store) (i : Index V) (key : Bytes) → kv_get s key ≡ none → get t host s i key ≡ ok none
  unfolding get
  get-none s i key e = rw (e, get)

  get_primary :
      (s : Store) (key row : Bytes)
      → kv_get s key ≡ some row
      → get t host s t.primary key ≡ read_old t host (some row)
  unfolding get
  get_primary s key row e =
      let b : (t.primary.name == t.primary.name) ≡ true = ground arith in rw (e, get, b)

  get_secondary :
      (s : Store) (i : Index V) (key pk : Bytes) (row : Option Bytes)
      → i.name ≢ t.primary.name
      → kv_get s key ≡ some pk
      → kv_get s pk ≡ row
      → get t host s i key
        ≡ (elim row [ none ↦ err no_primary_row | some r ↦ read_old t host (some r) ])
  unfolding get
  get_secondary s i key pk row n e f =
      let b : (i.name == t.primary.name) ≡ false = ground arith in rw (e, get, b, f)

  module _ (names : Named t) (s : Store) (con : Consistent t host s) (k : Bytes) where
    find_primary :
        (i : Index V)
        → i ≡ t.primary
        → Found s i k (get t host s i (full_key (make_prefix t i.name) k))
    unfolding index_key
    find_primary i p =
        rw p (elim (Option-cases (kv_get s (full_key (make_prefix t t.primary.name) k))) [
          | inl e ↦ rw (get-none s t.primary _ e) (λ u r q. cc (
            e,
            subst (λ x. kv_get s (full_key (make_prefix t t.primary.name) x) ≡ some (serialize t u))
                q r,
          ))
          | inr (bytes, e) ↦
              let (w, b, q) = con.primary k bytes e in
              rw (get_primary s _ bytes e, b, read_row w)
                (
                  subst
                      (λ x.
                        kv_get s (full_key (make_prefix t t.primary.name) x) ≡ some (serialize t w))
                      (sym q) (e ∙ ap some b),
                  q,
                )
        ])

    find_secondary :
        (i : Index V)
        → Synced t host (Stored t host s) s i
        → i.name ≢ t.primary.name
        → Found s i k (get t host s i (full_key (make_prefix t i.name) k))
    unfolding index_key
    find_secondary i sync n = elim (Option-cases (kv_get s (full_key (make_prefix t i.name) k))) [
      | inl e ↦ rw (get-none s i _ e) (λ u r q. cc (
        e,
        subst (λ x. kv_get s (full_key (make_prefix t i.name) x) ≡ some (index_key t t.primary u)) q
            (sync.leads u r),
      ))
      | inr (bytes, e) ↦
          let (w, r, q, b) = sync.sound k bytes e in
          rw
            (get_secondary s i _ bytes (some (serialize t w)) n e (ap (kv_get s) b ∙ r), read_row w)
            (r, q)
    ]

    -- With a lawful codec and distinct names of the indices, on a consistent table `get` through any
    -- index of the table never aborts: it returns the row that has the
    -- key, or nothing when no row has it.
    pub get-Found :
        (i : Index V) → Belongs i → Found s i k (get t host s i (full_key (make_prefix t i.name) k))
    get-Found i (inl p) = find_primary i p
    get-Found i (inr (n, e)) =
        let (sync, d) =
          nth_Synced (Stored t host s) s t.secondary n i con.indices names.from_primary e in
        find_secondary i sync d

  erase_hit :
      (s : Store) (v : V) (bytes : Bytes)
      → kv_get s (index_key t t.primary v) ≡ some bytes
      → erase t host s v ≡ kv_erase (erase_indices t host s v t.secondary) (index_key t t.primary v)
  unfolding erase
  erase_hit s v bytes e = rw (e, erase)

  erase_one :
      (s : Store) (v : V) (i : Index V) (is : List (Index V))
      → is ≡ i ∷ []
      → erase_indices t host s v is ≡ kv_erase s (index_key t i v)
  unfolding erase_indices
  erase_one s v i is e = rw e

  -- In a consistent table with a lawful codec, `erase` of a row that has the primary key of a stored row `u`, and another key in the table's
  -- only secondary index, leaves the index entry of `u` behind: reading through it aborts.
  pub erase_stale :
      (names : Named t) (s : Store) (con : Consistent t host s) (u v : V) (i : Index V)
      → t.secondary ≡ i ∷ []
      → Stored t host s u
      → t.primary.key v ≡ t.primary.key u
      → i.key v ≢ i.key u
      → get t host (erase t host s v) i (index_key t i u) ≡ err no_primary_row
  unfolding index_key
  erase_stale names s con u v i one stored same differ =
      let (sync, d) =
        nth_Synced (Stored t host s) s t.secondary 0 i con.indices names.from_primary
          (ap (λ is. get_elem? is 0) one) in
      let pk = λ (x : Bytes). full_key (make_prefix t t.primary.name) x in
      let at = λ (x : Bytes). full_key (make_prefix t i.name) x in
      let s₁ = kv_erase s (at (i.key v)) in
      let h = subst (λ x. kv_get s (pk x) ≡ some (serialize t u)) (sym same) stored in
      let e : erase t host s v ≡ kv_erase s₁ (pk (t.primary.key v)) =
        erase_hit s v (serialize t u) h
        ∙ ap (λ x. kv_erase x (pk (t.primary.key v))) (erase_one s v i t.secondary one) in
      let a : kv_get (kv_erase s₁ (pk (t.primary.key v))) (at (i.key u))
          ≡ some (pk (t.primary.key u)) =
        get-erase_ne t host s₁ _ _ (λ p. d (sym (index_key-name t host law t.primary i _ _ p).0))
        ∙ get-erase_ne t host s _ _ (λ p. differ (index_key-name t host law i i _ _ p).1)
        ∙ sync.leads u stored in
      let b : kv_get (kv_erase s₁ (pk (t.primary.key v))) (pk (t.primary.key u)) ≡ none =
        subst (λ x. kv_get (kv_erase s₁ (pk (t.primary.key v))) (pk x) ≡ none) same
          (get-erase_self t host s₁ (pk (t.primary.key v))) in
      subst (λ x. get t host x i (at (i.key u)) ≡ err no_primary_row) (sym e)
        (get_secondary (kv_erase s₁ (pk (t.primary.key v))) i _ (pk (t.primary.key u)) none d a b)
