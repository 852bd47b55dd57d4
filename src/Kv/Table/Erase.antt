-- ===== src/Kv/Table/Erase.antt =====
-- `table_base::erase` of kv.hpp: given a stored row, it removes the row and its index entries.
use taurus_cdt.Prelude.{
  ◌≡◌, ◌≢◌, refl, sym, ap, ◌∙◌, subst, List, [], ◌∷◌, some, inl, inr, All, ◌↔◌,
}
use taurus_cdt.Kv.Keys.{Bytes, full_key}
use taurus_cdt.Kv.Host.{KvHost}
use taurus_cdt.Kv.Table.{
  Index, Schema, Lawful, make_prefix, index_key, erase_indices, erase, serialize,
}
use taurus_cdt.Kv.Table.Rows.{
  Stored, PrimarySound, Synced, Consistent, Apart, AllApart, Stored-unique, index_key-name,
  get-erase_self, get-erase_ne, bytes_dec,
}
use taurus_cdt.Kv.Table.Consistency.{Named}

module _ {V : Type 0} (t : Schema V) (host : KvHost) (law : Lawful t) where
  open host use {Store, kv_get, kv_set, kv_erase}

  abbrev slot : Index V → Bytes → Bytes
  slot i k = full_key (make_prefix t i.name) k

  erase_other :
      (s : Store) (i j : Index V) (v : V) (k : Bytes)
      → i.name ≢ j.name
      → kv_get (kv_erase s (index_key t i v)) (slot j k) ≡ kv_get s (slot j k)
  unfolding index_key
  erase_other s i j v k n =
      get-erase_ne t host s (slot i (i.key v)) (slot j k)
        (λ p. n (index_key-name t host law i j (i.key v) k p).0)

  -- The loop changes nothing under the prefix of an index that it does not visit.
  pub erase_indices_beyond :
      (is : List (Index V)) (s : Store) (v : V) (j : Index V) (k : Bytes)
      → All (λ i. i.name ≢ j.name) is
      → kv_get (erase_indices t host s v is) (slot j k) ≡ kv_get s (slot j k)
  unfolding erase_indices
  erase_indices_beyond [] s v j k n = refl
  erase_indices_beyond (i ∷ is) s v j k (n, ns) =
      erase_indices_beyond is (kv_erase s (index_key t i v)) v j k ns ∙ erase_other s i j v k n

  Synced-agrees :
      (P : V → Type 0) (s s' : Store) (j : Index V)
      → ((k : Bytes) → kv_get s' (slot j k) ≡ kv_get s (slot j k))
      → Synced t host P s j
      → Synced t host P s' j
  unfolding index_key
  Synced-agrees P s s' j e sync = record {
    leads = λ u r. e (j.key u) ∙ sync.leads u r;
    sound = λ k bytes g. sync.sound k bytes (sym (e k) ∙ g);
  }

  module _ (R : V → Type 0)
      (unique : (a b : V) → R a → R b → t.primary.key a ≡ t.primary.key b → a ≡ b) (v : V)
      (r₀ : R v) where
    abbrev Left : V → Type 0
    Left u = R u × (t.primary.key u ≢ t.primary.key v)

    erased_Synced :
        (s : Store) (i : Index V)
        → Synced t host R s i
        → Synced t host Left (kv_erase s (index_key t i v)) i
    unfolding index_key
    erased_Synced s i sync = record {
      leads = λ u c.
          let ne : i.key v ≢ i.key u = (λ (p : i.key v ≡ i.key u).
            let a =
              subst (λ k. kv_get s (slot i k) ≡ some (index_key t t.primary v)) p
                (sync.leads v r₀) in
            let b : index_key t t.primary u ≡ index_key t t.primary v = cc (a, sync.leads u c.0) in
            c.1 (index_key-name t host law t.primary t.primary _ _ b).1) in
          get-erase_ne t host s (slot i (i.key v)) (slot i (i.key u))
            (λ p. ne (index_key-name t host law i i _ _ p).1)
          ∙ sync.leads u c.0;
      sound = λ k bytes g. elim (bytes_dec (i.key v) k) [
        | inl p ↦ cc (
          subst (λ x. kv_get (kv_erase s (slot i (i.key v))) (slot i x) ≡ some bytes) (sym p) g,
          get-erase_self t host s (slot i (i.key v)),
        )
        | inr n ↦
            let h =
              sym (
                get-erase_ne t host s (slot i (i.key v)) (slot i k)
                  (λ p. n (index_key-name t host law i i _ _ p).1))
              ∙ g in
            let (u, r, p, q) = sync.sound k bytes h in
            (u, (r, λ a. n (ap i.key (sym (unique u v r r₀ a)) ∙ p)), p, q)
      ];
    }

    Apart-From : (i : Index V) (is : List (Index V)) → Apart i is → All (λ j. j.name ≢ i.name) is
    Apart-From i [] a = tt
    Apart-From i (j ∷ is) (a, aa) = ((λ p. a (sym p)), Apart-From i is aa)

    All-agrees :
        (s : Store) (i : Index V) (is : List (Index V))
        → Apart i is
        → All (Synced t host R s) is
        → All (Synced t host R (kv_erase s (index_key t i v))) is
    All-agrees s i [] a h = tt
    All-agrees s i (j ∷ is) (a, aa) (h, hs) = (
      Synced-agrees R s (kv_erase s (index_key t i v)) j (λ k. erase_other s i j v k a) h,
      All-agrees s i is aa hs,
    )

    pub erase_indices-Synced :
        (is : List (Index V)) (s : Store)
        → AllApart is
        → All (Synced t host R s) is
        → All (Synced t host Left (erase_indices t host s v is)) is
    unfolding erase_indices
    erase_indices-Synced [] s a h = tt
    erase_indices-Synced (i ∷ is) s (a, aa) (h, hs) = (
      Synced-agrees Left (kv_erase s (index_key t i v))
          (erase_indices t host (kv_erase s (index_key t i v)) v is) i
          (λ k. erase_indices_beyond is (kv_erase s (index_key t i v)) v i k (Apart-From i is a))
          (erased_Synced s i h),
      erase_indices-Synced is (kv_erase s (index_key t i v)) aa (All-agrees s i is a hs),
    )

  module _ (names : Named t) (s : Store) (con : Consistent t host s) (v : V)
      (stored : Stored t host s v) where
    abbrev s₁ : Store
    s₁ = erase_indices t host s v t.secondary

    abbrev s₂ : Store
    s₂ = kv_erase s₁ (index_key t t.primary v)

    erase_eq : erase t host s v ≡ s₂
    unfolding erase
    erase_eq = rw (stored, erase)

    primary_other :
        (k : Bytes)
        → t.primary.key v ≢ k
        → kv_get s₂ (slot t.primary k) ≡ kv_get s (slot t.primary k)
    unfolding index_key
    primary_other k n =
        get-erase_ne t host s₁ (slot t.primary (t.primary.key v)) (slot t.primary k)
          (λ p. n (index_key-name t host law t.primary t.primary _ _ p).1)
        ∙ erase_indices_beyond t.secondary s v t.primary k names.from_primary

    Stored-Left :
        (u : V) → Stored t host s₂ u ↔ (Stored t host s u × (t.primary.key u ≢ t.primary.key v))
    unfolding index_key
    Stored-Left u = (
      λ g. elim (bytes_dec (t.primary.key v) (t.primary.key u)) [
        | inl p ↦ cc (
          subst (λ k. kv_get s₂ (slot t.primary k) ≡ some (serialize t u)) (sym p) g,
          get-erase_self t host s₁ (slot t.primary (t.primary.key v)),
        )
        | inr n ↦ (sym (primary_other (t.primary.key u) n) ∙ g, λ p. n (sym p))
      ],
      λ c. primary_other (t.primary.key u) (λ p. c.1 (sym p)) ∙ c.0,
    )

    primary_left : PrimarySound t host s₂
    unfolding index_key
    primary_left k bytes g = elim (bytes_dec (t.primary.key v) k) [
      | inl p ↦ cc (
        subst (λ x. kv_get s₂ (slot t.primary x) ≡ some bytes) (sym p) g,
        get-erase_self t host s₁ (slot t.primary (t.primary.key v)),
      )
      | inr n ↦ con.primary k bytes (sym (primary_other k n) ∙ g)
    ]

    indices-Left :
        (is : List (Index V))
        → All (λ i. i.name ≢ t.primary.name) is
        → All (Synced t host (Left (Stored t host s) (Stored-unique t host law s) v stored) s₁) is
        → All (Synced t host (Stored t host s₂) s₂) is
    indices-Left [] n h = tt
    indices-Left (i ∷ is) (n, ns) (sync, hs) =
        let w =
          Synced-agrees (Left (Stored t host s) (Stored-unique t host law s) v stored) s₁ s₂ i
            (λ k. erase_other s₁ t.primary i v k (λ p. n (sym p))) sync in
        (
          record {
            leads = λ u g. w.leads u ((Stored-Left u).0 g);
            sound =
                λ k bytes g. let (u, r, p, q) = w.sound k bytes g in (u, (Stored-Left u).1 r, p, q);
          },
          indices-Left is ns hs,
        )

    -- With a lawful codec and distinct names of the indices, `erase` of a row of a consistent table leaves a consistent table with the other rows.
    pub erase-Consistent :
        Consistent t host (erase t host s v)
        × ((u : V)
            → Stored t host (erase t host s v) u
              ↔ (Stored t host s u × (t.primary.key u ≢ t.primary.key v)))
    erase-Consistent =
        subst
          (λ x.
            Consistent t host x
            × ((u : V)
                → Stored t host x u ↔ (Stored t host s u × (t.primary.key u ≢ t.primary.key v))))
          (sym erase_eq)
          (
            record {
              primary = primary_left;
              indices = indices-Left t.secondary names.from_primary (
                  erase_indices-Synced (Stored t host s) (Stored-unique t host law s) v stored
                    t.secondary s names.apart con.indices);
            },
            Stored-Left,
          )
