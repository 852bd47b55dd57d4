-- ===== src/Kv/Table/Rows.antt =====
-- What a table of kv.hpp holds: its rows, and what it means that the indices agree with them.
use taurus_cdt.Prelude.{
  ◌≡◌, ◌≢◌, sym, ap, ◌∙◌, subst, List, [], ◌∷◌, none, some, true, All, ok, arith, Bool-cases, inl,
  inr, ◌⊎◌,
}
use taurus_cdt.Kv.Keys.{Bytes, full_key, bytes_eq, bytes_eq→eq, bytes_eq_refl, full_key-injective}
use taurus_cdt.Kv.Host.{KvHost}
use taurus_cdt.Kv.Table.{
  Index, Schema, Lawful, make_prefix, index_key, serialize, deserialize_indexed, deserialize,
}

module _ {V : Type 0} where
  -- No two indices of the table have one name.
  abbrev pub Apart : Index V → List (Index V) → Type 0
  Apart i is = All (λ j. i.name ≢ j.name) is

  abbrev pub AllApart : List (Index V) → Type 0
  AllApart [] = Unit {0}
  AllApart (i ∷ is) = Apart i is × AllApart is

module _ {V : Type 0} (t : Schema V) (host : KvHost) where
  open host use {Store, kv_get, kv_set, kv_erase}

  -- The row is in the database, under its primary key.
  abbrev pub Stored : Store → V → Type 0
  Stored s v = kv_get s (index_key t t.primary v) ≡ some (serialize t v)

  -- Whatever stands under a primary key is a row with that key.
  abbrev pub PrimarySound : Store → Type 0
  PrimarySound s =
      (k bytes : Bytes)
      → kv_get s (full_key (make_prefix t t.primary.name) k) ≡ some bytes
      → (v : V) × (bytes ≡ serialize t v) × (t.primary.key v ≡ k)

  -- An index leads from the key of each row to the row's primary key, and from no other key.
  pub record Synced (R : V → Type 0) (s : Store) (i : Index V) : Type 0 where
    pub leads : (v : V) → R v → kv_get s (index_key t i v) ≡ some (index_key t t.primary v)
    pub sound :
        (k bytes : Bytes)
        → kv_get s (full_key (make_prefix t i.name) k) ≡ some bytes
        → (v : V) × R v × (i.key v ≡ k) × (bytes ≡ index_key t t.primary v)

  pub record Consistent (s : Store) : Type 0 where
    pub primary : PrimarySound s
    pub indices : All (Synced (Stored s) s) t.secondary

  module _ (law : Lawful t) where
    pub deserialize-serialize : (v : V) → deserialize t (serialize t v) ≡ ok v
    unfolding deserialize deserialize_indexed serialize
    deserialize-serialize v = elim (Bool-cases t.is_variant) [
      | inl e ↦ rw (e, law.unpack-pack v) (λ i. ok v)
      | inr e ↦ rw (e, law.get-put 0 (t.pack v), law.unpack-pack v) (λ i. ok v)
    ]

    pub serialize-injective : (v w : V) → serialize t v ≡ serialize t w → v ≡ w
    serialize-injective v w e =
        let f = sym (deserialize-serialize v) ∙ ap (deserialize t) e ∙ deserialize-serialize w in
        ground arith

    pub index_key-name :
        (i j : Index V) (k l : Bytes)
        → full_key (make_prefix t i.name) k ≡ full_key (make_prefix t j.name) l
        → (i.name ≡ j.name) × (k ≡ l)
    unfolding make_prefix
    index_key-name i j k l e =
        let (p, q) = full_key-injective _ _ k l (law.prefix_length i.name j.name) e in
        (law.prefix_injective i.name j.name p, q)

    -- Two rows under one primary key are one row.
    pub Stored-unique :
        (s : Store) (v w : V) → Stored s v → Stored s w → t.primary.key v ≡ t.primary.key w → v ≡ w
    unfolding index_key
    Stored-unique s v w a b e =
        let k : index_key t t.primary v ≡ index_key t t.primary w =
          ap (full_key (make_prefix t t.primary.name)) e in
        let c = sym a ∙ ap (kv_get s) k ∙ b in serialize-injective v w (ground arith)

  -- Reading behind a write and behind an erasure.
  pub get-set_self : (s : Store) (k v : Bytes) → kv_get (kv_set s k v) k ≡ some v
  get-set_self s k v = rw (host.get-set s k v k, bytes_eq_refl k)

  pub get-set_ne : (s : Store) (k v j : Bytes) → k ≢ j → kv_get (kv_set s k v) j ≡ kv_get s j
  get-set_ne s k v j n = elim (Bool-cases (bytes_eq k j)) [
    | inl e ↦ absurd (n (bytes_eq→eq k j e))
    | inr e ↦ rw (host.get-set s k v j, e)
  ]

  pub get-erase_self : (s : Store) (k : Bytes) → kv_get (kv_erase s k) k ≡ none
  get-erase_self s k = rw (host.get-erase s k k, bytes_eq_refl k)

  pub get-erase_ne : (s : Store) (k j : Bytes) → k ≢ j → kv_get (kv_erase s k) j ≡ kv_get s j
  get-erase_ne s k j n = elim (Bool-cases (bytes_eq k j)) [
    | inl e ↦ absurd (n (bytes_eq→eq k j e))
    | inr e ↦ rw (host.get-erase s k j, e)
  ]

pub bytes_dec : (k j : Bytes) → (k ≡ j) ⊎ (k ≢ j)
bytes_dec k j = elim (Bool-cases (bytes_eq k j)) [
  | inl e ↦ inl (bytes_eq→eq k j e)
  | inr e ↦ inr (λ p. cc (e, subst (λ x. bytes_eq k x ≡ true) p (bytes_eq_refl k)))
]
