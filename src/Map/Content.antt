-- ===== src/Map/Content.antt =====
-- What the operations by key of `map` in libraries/eosiolib/contracts/eosio/map.hpp do to its contents.
use taurus_cdt.Prelude.{
  ◌≡◌, refl, sym, ◌∙◌, subst, List, [], ◌∷◌, Option, none, some, Option-cases, Bool-cases, inl, inr,
  Bool, true, false, if◌then◌else◌, Result, ok, err, ◌>>=◌,
}
use taurus_cdt.Kv.Keys.{
  Bytes, bytes_eq, bytes_eq→eq, bytes_eq_refl, bytes_eq_iff, full_key-injective,
}
use taurus_cdt.Kv.Host.{KvHost}
use taurus_cdt.Map.{
  Failure, stream_error, key_not_found, MapType, Lawful, Elem, prefix, full_key, set, unpacked, get,
  index, assign, contains, erase, at,
}

-- What a program does with a map: `m[k] = v`, `m[k]` alone, and `m.erase( k )`.
pub data Op (K V : Type 0) : Type 0 where
  put : K → V → Op K V
  touch : K → Op K V
  remove : K → Op K V

abbrev pub is_some {ℓ} : {A : Type ℓ} → Option A → Bool
is_some none = false
is_some (some a) = true

module _ {K V : Type 0} (t : MapType K V) where
  -- The contents as a function from keys to values.
  abbrev pub Contents : Type 0
  Contents = K → Option V

  abbrev pub change : Contents → K → Option V → Contents
  change f k o j = if bytes_eq (t.convert_to_key k) (t.convert_to_key j) then o else f j

  abbrev pub touched : Contents → K → Option V → Contents
  touched f k none = change f k (some t.initial)
  touched f k (some v) = f

  abbrev pub contents_step : Contents → Op K V → Contents
  contents_step f (put k v) = change f k (some v)
  contents_step f (touch k) = touched f k (f k)
  contents_step f (remove k) = change f k none

  abbrev pub contents_after : Contents → List (Op K V) → Contents
  contents_after f [] = f
  contents_after f (o ∷ ops) = contents_after (contents_step f o) ops

  same_key :
      (k j : K)
      → bytes_eq (full_key t k) (full_key t j) ≡ bytes_eq (t.convert_to_key k) (t.convert_to_key j)
  unfolding full_key
  same_key k j = elim (Bool-cases (bytes_eq (t.convert_to_key k) (t.convert_to_key j))) [
    | inl p ↦ (let e = bytes_eq→eq _ _ p in rw (p, e) (bytes_eq_refl _))
    | inr p ↦ elim (Bool-cases (bytes_eq (full_key t k) (full_key t j))) [
      | inr q ↦ q ∙ sym p
      | inl q ↦
          (let e = (full_key-injective (prefix t) (prefix t) _ _ refl (bytes_eq→eq _ _ q)).1 in
            let u = (bytes_eq_iff (t.convert_to_key k) (t.convert_to_key j)).1 e in cc)
    ]
  ]

  module _ (host : KvHost) where
    open host use {Store, kv_get}

    abbrev pub op : Store → Op K V → Result Failure Store
    op s (put k v) = index t host s k >>= λ r. ok (assign t host r.0 r.1 v).0
    op s (touch k) = index t host s k >>= λ r. ok r.0
    op s (remove k) = ok (erase t host s k)

    abbrev pub run : Store → List (Op K V) → Result Failure Store
    run s [] = ok s
    run s (o ∷ ops) = op s o >>= λ s'. run s' ops

    -- A database whose part under the map's prefix is a function's graph, in packed values.
    unfoldable pub Holds : Store → Contents → Type 0
    Holds s f = (k : K) → get t host s (full_key t k) ≡ ok (f k)

    get-set :
        (s : Store) (k j : Bytes) (v : V)
        → Lawful t
        → get t host (set t host s k v) j ≡ (if bytes_eq k j then ok (some v) else get t host s j)
    unfolding get set unpacked
    get-set s k j v l = elim (Bool-cases (bytes_eq k j)) [
      | inl p ↦ rw (get, host.get-set s k (t.pack v) j, p, unpacked, l.unpack-pack v) refl
      | inr p ↦ rw (get, host.get-set s k (t.pack v) j, p) refl
    ]

    get-erase :
        (s : Store) (k : K) (j : Bytes)
        → get t host (erase t host s k) j
          ≡ (if bytes_eq (full_key t k) j then ok none else get t host s j)
    unfolding get erase
    get-erase s k j = elim (Bool-cases (bytes_eq (full_key t k) j)) [
      | inl p ↦ rw (get, host.get-erase s (full_key t k) j, p) refl
      | inr p ↦ rw (get, host.get-erase s (full_key t k) j, p) refl
    ]

    abbrev res : {A : Type 0} → A → Result Failure A
    res a = ok a

    if_ok :
        {A : Type 0} (b : Bool) (x y : A) → (if b then res x else res y) ≡ res (if b then x else y)
    if_ok true x y = refl
    if_ok false x y = refl

    -- A write makes up the key it is for: only the others must hold before.
    set-Holds :
        (s : Store) (f : Contents) (k : K) (v : V)
        → Lawful t
        → ((j : K)
            → bytes_eq (t.convert_to_key k) (t.convert_to_key j) ≡ false
            → get t host s (full_key t j) ≡ ok (f j))
        → Holds (set t host s (full_key t k) v) (change f k (some v))
    unfolding Holds
    set-Holds s f k v l h j =
        let e = get-set s (full_key t k) (full_key t j) v l in
        elim (Bool-cases (bytes_eq (t.convert_to_key k) (t.convert_to_key j))) [
          | inl p ↦ e ∙ rw (same_key k j, p) refl
          | inr p ↦ e ∙ rw (same_key k j, p) (h j p)
        ]

    Holds-erase :
        (s : Store) (f : Contents) (k : K) → Holds s f → Holds (erase t host s k) (change f k none)
    unfolding Holds
    Holds-erase s f k h j =
        get-erase s k (full_key t j) ∙ rw (same_key k j, h j) (if_ok _ none (f j))

    get-contains :
        (s : Store) (k : K) (o : Option V)
        → get t host s (full_key t k) ≡ ok o
        → contains t host s k ≡ is_some o
    unfolding contains get unpacked
    get-contains s k o h = elim (Option-cases (kv_get s (full_key t k))) [
      | inl e ↦
          (let q : res none ≡ ok o = rw (get, e) at h in
            let w : none ≡ o = cc in rw (contains, e, sym w) refl)
      | inr (b, e) ↦ elim (Option-cases (t.unpack b)) [
        | inl u ↦ (let q : err stream_error ≡ res o = rw (get, e, unpacked, u) at h in absurd (cc))
        | inr (v, u) ↦
            (let q : res (some v) ≡ ok o = rw (get, e, unpacked, u) at h in
              let w : some v ≡ o = cc in rw (contains, e, sym w) refl)
      ]
    ]

    -- Each operation does to the contents what it does to a map of keys and values.
    op-Holds :
        (s : Store) (f : Contents) (o : Op K V)
        → Lawful t
        → Holds s f
        → (s' : Store) × (op s o ≡ ok s') × Holds s' (contents_step f o)
    unfolding index assign Holds
    op-Holds s f (put k v) l h = elim (Option-cases (f k)) [
      | inl e ↦ (
        set t host (set t host s (full_key t k) t.initial) (full_key t k) v,
        rw (index, h k, e) refl,
        set-Holds (set t host s (full_key t k) t.initial) f k v l
            λ j p. get-set s (full_key t k) (full_key t j) t.initial l ∙ rw (same_key k j, p) (h j),
      )
      | inr (w, e) ↦
          (set t host s (full_key t k) v, rw (index, h k, e) refl, set-Holds s f k v l λ j p. h j)
    ]
    op-Holds s f (touch k) l h = elim (Option-cases (f k)) [
      | inl e ↦ (
        set t host s (full_key t k) t.initial,
        rw (index, h k, e) refl,
        subst (λ o. Holds (set t host s (full_key t k) t.initial) (touched f k o)) (sym e)
            (set-Holds s f k t.initial l λ j p. h j),
      )
      | inr (w, e) ↦ (s, rw (index, h k, e) refl, subst (λ o. Holds s (touched f k o)) (sym e) h)
    ]
    op-Holds s f (remove k) l h = (erase t host s k, refl, Holds-erase s f k h)

    run-Holds :
        (s : Store) (f : Contents) (ops : List (Op K V))
        → Lawful t
        → Holds s f
        → (s' : Store) × (run s ops ≡ ok s') × Holds s' (contents_after f ops)
    run-Holds s f [] l h = (s, refl, h)
    run-Holds s f (o ∷ ops) l h =
        let (s₁, e₁, h₁) = op-Holds s f o l h in
        let (s₂, e₂, h₂) = run-Holds s₁ (contents_step f o) ops l h₁ in (s₂, rw e₁ e₂, h₂)

    abbrev pub get_or_fail : Option V → Bytes → Result Failure (Elem V)
    get_or_fail none k = err key_not_found
    get_or_fail (some v) k = ok (record { key = k; value = v })

    at-get :
        (s : Store) (k : K) (o : Option V)
        → get t host s (full_key t k) ≡ ok o
        → at t host s k ≡ get_or_fail o (full_key t k)
    unfolding at
    at-get s k none h = rw (at, h) refl
    at-get s k (some v) h = rw (at, h) refl

    -- Over a database that holds packed values, any sequence of `m[k] = v`, `m[k]` and `erase( k )` succeeds, and
    -- then `contains` and `at` say for every key what a map of keys and values says on which the same was done:
    -- `m[k]` alone puts the default value where there is none.
    pub run-contents :
        (s : Store) (f : Contents) (ops : List (Op K V))
        → Lawful t
        → Holds s f
        → (s' : Store) × (run s ops ≡ ok s')
          × ((k : K)
              → (contains t host s' k ≡ is_some (contents_after f ops k))
                × (at t host s' k ≡ get_or_fail (contents_after f ops k) (full_key t k)))
    unfolding Holds
    run-contents s f ops l h =
        let (s', e, h') = run-Holds s f ops l h in
        (
          s',
          e,
          λ k. (
            get-contains s' k (contents_after f ops k) (h' k),
            at-get s' k (contents_after f ops k) (h' k),
          ),
        )
