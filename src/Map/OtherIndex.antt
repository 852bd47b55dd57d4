-- ===== src/Map/OtherIndex.antt =====
-- `map` of libraries/eosiolib/contracts/eosio/map.hpp with an index name of its own: `self_t` drops the name, so
-- the iterators and the elements of such a map are under the prefix of another.
use taurus_cdt.Prelude.{
  ℕ, zero, suc, ◌*◌, ◌/◌, ◌%◌, ◌^◌, ◌<◌, ◌≡◌, ◌≢◌, refl, sym, ◌∙◌, List, [], ◌∷◌, Option, none,
  some, Bool-cases, inl, inr, true, arith, length, map,
}
use taurus_cdt.Kv.Keys
use taurus_cdt.Kv.Keys.{Bytes, bytes_eq, bytes_eq→eq, full_key-injective}
use taurus_cdt.Kv.Host.{KvHost}
use taurus_cdt.Kv.Cursors.{KvCursors, Status, First, CursorLaws}
use taurus_cdt.Map.{
  le_bytes, const_pack, MapType, Elem, prefix, self_prefix, full_key, make_elem, set, get,
  store_elems,
}
use taurus_cdt.Map.Iterator.{same, end, find}
use taurus_cdt.Map.Position.{lower_bound-Placed}
use taurus_cdt.Map.Find.{find_elsewhere, Ended-same}

-- The integers of so many bytes.
abbrev integers : ℕ → ℕ
integers zero = 1
integers (suc n) = 256 * integers n

le_bytes-injective :
    (n a b : ℕ) → a < integers n → b < integers n → le_bytes n a ≡ le_bytes n b → a ≡ b
unfolding le_bytes
le_bytes-injective zero a b h k e = omega (arith, h, k)
le_bytes-injective (suc n) a b h k e =
    let d : a % 256 ≡ b % 256 = cc in
    let q : le_bytes n (a / 256) ≡ le_bytes n (b / 256) = cc in
    let r : a / 256 ≡ b / 256 =
      le_bytes-injective n (a / 256) (b / 256) (omega (arith, h)) (omega (arith, k)) q in
    omega (arith, d, r)

module _ {K V : Type 0} (t : MapType K V) where
  lengths : length (prefix t) ≡ length (self_prefix t)
  unfolding prefix self_prefix const_pack le_bytes
  lengths = refl

  names :
      t.index_name < 2 ^ 64
      → t.default_index_name < 2 ^ 64
      → prefix t ≡ self_prefix t
      → t.index_name ≡ t.default_index_name
  unfolding prefix self_prefix const_pack le_bytes
  names h k e =
      let q : le_bytes 8 t.index_name ≡ le_bytes 8 t.default_index_name = cc in
      le_bytes-injective 8 t.index_name t.default_index_name h k q

  -- No key of the map is under the prefix of its iterators.
  outside :
      prefix t ≢ self_prefix t
      → (k : K) (r : Bytes) → full_key t k ≢ Keys.full_key (self_prefix t) r
  unfolding full_key
  outside n k r e =
      n (full_key-injective (prefix t) (self_prefix t) (t.convert_to_key k) r lengths e).0

  module _ (host : KvHost) where
    open host use {Store}

    get_unchanged :
        (s : Store) (k j : Bytes) (v : V) → k ≢ j → get t host (set t host s k v) j ≡ get t host s j
    unfolding get set
    get_unchanged s k j v n = elim (Bool-cases (bytes_eq k j)) [
      | inl p ↦ absurd (n (bytes_eq→eq k j p))
      | inr p ↦ rw (get, host.get-set s k (t.pack v) j, p) refl
    ]

    -- The elements that a list of keys and values makes.
    abbrev pub elems : List (K × V) → List (Elem V)
    elems l = map (λ p. make_elem t p.0 p.1) l

    store_elems-get :
        (s : Store) (l : List (K × V)) (k : K)
        → prefix t ≢ self_prefix t
        → get t host (store_elems t host s (elems l)) (full_key t k) ≡ get t host s (full_key t k)
    unfolding store_elems make_elem
    store_elems-get s [] k n = refl
    store_elems-get s ((j, v) ∷ l) k n =
        let e : Elem V = make_elem t j v in
        store_elems-get (set t host s e.key v) l k n
        ∙ get_unchanged s e.key (full_key t k) v (λ q. outside n k (t.convert_to_key j) (sym q))

    module _ (cursors : KvCursors host) (laws : CursorLaws cursors) where
      open cursors use {stands, Le}

      nowhere_at :
          (s : Store) (k : K) (st : Status) (o : Option Bytes)
          → prefix t ≢ self_prefix t
          → First cursors s (self_prefix t) Le (λ j. Le (full_key t k) j) st o
          → o ≢ some (full_key t k)
      nowhere_at s k st none n f e = cc
      nowhere_at s k st (some j) n (e, u, l, (r, w), least) q =
          let z : full_key t k ≡ j = cc in outside n k r (z ∙ w)

      -- A map whose index name, below 2 ^ 64 as `map.index` is, is another name: `find` of any key is the end, and
      -- a construction from a list of keys and values leaves every key of the map with what it had.
      pub other_index-lost :
          (s : Store)
          → t.index_name < 2 ^ 64
          → t.default_index_name < 2 ^ 64
          → t.index_name ≢ t.default_index_name
          → ((k : K) → same t host cursors (find t host cursors s k) (end t host cursors s) ≡ true)
            × ((l : List (K × V)) (k : K)
                → get t host (store_elems t host s (elems l)) (full_key t k)
                  ≡ get t host s (full_key t k))
      other_index-lost s h h' n =
          let apart : prefix t ≢ self_prefix t = λ e. n (names h h' e) in
          (
            λ k.
                let p = lower_bound-Placed t cursors laws s (full_key t k) in
                Ended-same t cursors laws s k (find t host cursors s k)
                  (find_elsewhere t cursors laws s k (nowhere_at s k _ _ apart p.first)),
            λ l k. store_elems-get s l k apart,
          )
