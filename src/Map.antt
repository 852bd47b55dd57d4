-- ===== src/Map.antt =====
-- `map` of libraries/eosiolib/contracts/eosio/map.hpp: what it stores and reads by key. The packing of keys and
-- values is the library abieos': parameters of a map type. The payer that the host bills is left out, since no
-- read returns it, as are the static buffer that bytes pass through and the count that `kv_set` returns.
pub mod Iterator
pub mod Position
pub mod Content
pub mod OtherIndex
pub mod Find
pub mod Reverse
pub mod Slice
mod ByteOrder
pub mod UpperBound
mod Tests
use mathlib.Core.List.{reverse}
use taurus_cdt.Prelude.{
  ℕ, zero, suc, ◌/◌, ◌%◌, ◌≡◌, List, [], ◌∷◌, ◌++◌, Option, none, some, Bool, true, false, Result,
  ok, err, ◌>>=◌,
}
use taurus_cdt.Kv.Keys
use taurus_cdt.Kv.Keys.{Bytes}
use taurus_cdt.Kv.Host.{KvHost}

pub data Failure : Type 0 where
  key_not_found stream_error incrementing_past_end decrementing_past_end failure_getting_key
        failure_getting_value before_the_key out_of_rounds :
      Failure

-- What `memcpy` reads of an integer of so many bytes.
unfoldable pub le_bytes : ℕ → ℕ → Bytes
le_bytes zero v = []
le_bytes (suc n) v = (v % 256) ∷ le_bytes n (v / 256)

-- `const_pack` of libraries/eosiolib/core/eosio/key_utils.hpp, for integers and names: the width and the value of
-- each.
unfoldable pub const_pack : List (ℕ × ℕ) → Bytes
unfolding le_bytes
const_pack [] = []
const_pack ((n, v) ∷ args) = reverse (le_bytes n v) ++ const_pack args

-- The template's parameters, with the functions of the library for them.
pub record MapType (K V : Type 0) : Type 0 where
  pub table_name : ℕ
  pub index_name : ℕ
  -- The name `map.index`.
  pub default_index_name : ℕ
  pub convert_to_key : K → Bytes
  pub pack : V → Bytes
  pub unpack : Bytes → Option V
  -- `value_t{}`
  pub initial : V

-- What the code relies on of the library.
pub record Lawful {K V : Type 0} (t : MapType K V) : Type 0 where
  pub unpack-pack : (v : V) → t.unpack (t.pack v) ≡ some v

-- `elem`
pub record Elem (V : Type 0) : Type 0 where
  pub key : Bytes
  pub value : V

module _ {K V : Type 0} (t : MapType K V) where
  abbrev pub magic : ℕ
  magic = 1

  unfoldable pub prefix : Bytes
  prefix = const_pack ((1, magic) ∷ (8, t.table_name) ∷ (8, t.index_name) ∷ [])

  -- The prefix of `self_t`, which has the index name by default: that of the elements and the iterators.
  unfoldable pub self_prefix : Bytes
  self_prefix = const_pack ((1, magic) ∷ (8, t.table_name) ∷ (8, t.default_index_name) ∷ [])

  unfoldable pub full_key : K → Bytes
  full_key k = Keys.full_key prefix (t.convert_to_key k)

  -- `elem( k, v )`
  unfoldable pub make_elem : K → V → Elem V
  make_elem k v = record { key = Keys.full_key self_prefix (t.convert_to_key k); value = v }

  module _ (host : KvHost) where
    open host use {Store, kv_get, kv_set, kv_erase}

    unfoldable pub set : Store → Bytes → V → Store
    set s k v = kv_set s k (t.pack v)

    -- `unpack`, which fails on bytes that are no value.
    unfoldable pub unpacked : Bytes → Result Failure V
    unpacked b = elim (t.unpack b) [ none ↦ err stream_error | some v ↦ ok v ]

    unfoldable pub get : Store → Bytes → Result Failure (Option V)
    unfolding unpacked
    get s k = elim (kv_get s k) [ none ↦ ok none | some b ↦ unpacked b >>= λ v. ok (some v) ]

    -- `operator[]`, whose `writable_wrapper` is the element.
    unfoldable pub index : Store → K → Result Failure (Store × Elem V)
    unfolding get set full_key
    index s k = get s (full_key k) >>= λ o. ok (elim o [
      | some v ↦ (s, record { key = full_key k; value = v })
      | none ↦ (set s (full_key k) t.initial, record { key = full_key k; value = t.initial })
    ])

    -- `writable_wrapper::operator=`
    unfoldable pub assign : Store → Elem V → V → Store × Elem V
    unfolding set
    assign s w v = (set s w.key v, record w { value = v })

    unfoldable pub at : Store → K → Result Failure (Elem V)
    unfolding get full_key
    at s k = get s (full_key k) >>= λ o. elim o [
      | none ↦ err key_not_found
      | some v ↦ ok (record { key = full_key k; value = v })
    ]

    unfoldable pub contains : Store → K → Bool
    unfolding full_key
    contains s k = elim (kv_get s (full_key k)) [ none ↦ false | some b ↦ true ]

    unfoldable pub erase : Store → K → Store
    unfolding full_key
    erase s k = kv_erase s (full_key k)

    unfoldable pub raw_write : Store → K → Bytes → Store
    unfolding full_key
    raw_write s k bytes = kv_set s (full_key k) bytes

    -- The constructors of a list of elements.
    unfoldable pub store_elems : Store → List (Elem V) → Store
    unfolding set
    store_elems s [] = s
    store_elems s (e ∷ es) = store_elems (set s e.key e.value) es
