-- ===== src/Kv/Table.antt =====
-- `kv_index`, `table_base` and the codec of `table` in contracts/eosio/kv.hpp. The packing of a
-- row, of `unsigned_int` and of the key prefix are the library abieos': parameters of a schema,
-- which also says whether its rows are `std::variant`s, for which `serialize` and `deserialize` have overloads.
pub mod Rows
pub mod PutIndex
pub mod Put
pub mod Consistency
pub mod Erase
pub mod Get
mod Tests
use taurus_cdt.Prelude.{
  ℕ, ◌≡◌, ◌≢◌, List, [], ◌∷◌, ◌++◌, Option, none, some, Bool, true, false, not, ◌==◌, if◌then◌else◌,
  Result, ok, err, ◌>>=◌, ◌>>◌, check, All, length,
}
use taurus_cdt.Kv.Keys.{Bytes, full_key, bytes_eq}
use taurus_cdt.Kv.Host.{KvHost}

pub data Failure : Type 0 where
  existing_on_store existing_on_update no_primary_row bad_variant_index stream_error : Failure

-- `kv_index`: its name and the key function that the table's author gives it.
pub record Index (V : Type 0) : Type 0 where
  pub name : ℕ
  pub key : V → Bytes

pub record Schema (V : Type 0) : Type 0 where
  pub table_name : ℕ
  pub primary : Index V
  pub secondary : List (Index V)
  -- `convert_to_key` of a tuple of a `uint8_t` and two names.
  pub tuple_key : ℕ → ℕ → ℕ → Bytes
  pub is_variant : Bool
  pub pack : V → Bytes
  pub unpack : Bytes → Option V
  pub put_uint : ℕ → Bytes
  pub get_uint : Bytes → Option (ℕ × Bytes)

-- What the code relies on of the library, and of the author's choice of names.
pub record Lawful {V : Type 0} (t : Schema V) : Type 0 where
  pub unpack-pack : (v : V) → t.unpack (t.pack v) ≡ some v
  pub get-put : (n : ℕ) (rest : Bytes) → t.get_uint (t.put_uint n ++ rest) ≡ some (n, rest)
  pub prefix_length :
      (a b : ℕ) → length (t.tuple_key 1 t.table_name a) ≡ length (t.tuple_key 1 t.table_name b)
  pub prefix_injective :
      (a b : ℕ) → t.tuple_key 1 t.table_name a ≡ t.tuple_key 1 t.table_name b → a ≡ b

or_stream_error {ℓ} : {A : Type ℓ} → Option A → Result Failure A
or_stream_error none = err stream_error
or_stream_error (some a) = ok a

module _ {V : Type 0} (t : Schema V) where
  -- `make_prefix( table_name, index_name )`, with the status byte 1.
  unfoldable pub make_prefix : ℕ → Bytes
  make_prefix index_name = t.tuple_key 1 t.table_name index_name

  -- The full key of a row in an index.
  unfoldable pub index_key : Index V → V → Bytes
  unfolding make_prefix
  index_key i v = full_key (make_prefix i.name) (i.key v)

  unfoldable pub serialize : V → Bytes
  serialize v = if t.is_variant then t.pack v else t.put_uint 0 ++ t.pack v

  unfoldable pub deserialize_indexed : Bytes → Result Failure V
  unfolding or_stream_error
  deserialize_indexed bytes = do
    (idx, rest) ← or_stream_error (t.get_uint bytes)
    check (idx == 0) bad_variant_index
    or_stream_error (t.unpack rest)

  unfoldable pub deserialize : Bytes → Result Failure V
  unfolding or_stream_error deserialize_indexed
  deserialize bytes =
      if t.is_variant then or_stream_error (t.unpack bytes) else deserialize_indexed bytes

module _ {V : Type 0} (t : Schema V) (host : KvHost) where
  open host use {Store, kv_get, kv_set, kv_erase}

  -- The row that the new one replaces, if there is one.
  unfoldable pub read_old : Option Bytes → Result Failure (Option V)
  unfolding deserialize
  read_old none = ok none
  read_old (some bytes) = deserialize t bytes >>= λ v. ok (some v)

  -- One round of the loop of `table_base::put`: an index of a new row (no old one), or of an update.
  unfoldable pub put_index :
      Store → Bytes → Option V → V → Index V → Option Bytes → Result Failure Store
  unfolding index_key
  put_index s tbl_key none v i none = ok (kv_set s (index_key t i v) tbl_key)
  put_index s tbl_key none v i (some found) = err existing_on_store
  put_index s tbl_key (some old) v i none =
      ok (kv_set (kv_erase s (index_key t i old)) (index_key t i v) tbl_key)
  put_index s tbl_key (some old) v i (some found) =
      check (bytes_eq found tbl_key) existing_on_update >> ok s

  unfoldable pub put_indices : Store → Bytes → Option V → V → List (Index V) → Result Failure Store
  unfolding put_index
  put_indices s tbl_key old v [] = ok s
  put_indices s tbl_key old v (i ∷ is) =
      put_index s tbl_key old v i (kv_get s (index_key t i v)) >>= λ s'.
      put_indices s' tbl_key old v is

  -- `table_base::put`
  unfoldable pub put : Store → V → Result Failure Store
  unfolding read_old put_indices serialize
  put s v = do
    let tbl_key = index_key t t.primary v
    old ← read_old (kv_get s tbl_key)
    s' ← put_indices s tbl_key old v t.secondary
    ok (kv_set s' tbl_key (serialize t v))

  unfoldable pub erase_indices : Store → V → List (Index V) → Store
  unfolding index_key
  erase_indices s v [] = s
  erase_indices s v (i ∷ is) = erase_indices (kv_erase s (index_key t i v)) v is

  -- `table_base::erase`
  unfoldable pub erase : Store → V → Store
  unfolding erase_indices
  erase s v =
      let tbl_key = index_key t t.primary v in
      elim (kv_get s tbl_key) [
        | none ↦ s
        | some found ↦ kv_erase (erase_indices s v t.secondary) tbl_key
      ]

  -- `kv_index::get`
  unfoldable pub get : Store → Index V → Bytes → Result Failure (Option V)
  unfolding read_old
  get s i key = elim (kv_get s key) [
    | none ↦ ok none
    | some bytes ↦
        if not (i.name == t.primary.name)
        then (elim (kv_get s bytes) [ none ↦ err no_primary_row | some row ↦ read_old (some row) ])
        else read_old (some bytes)
  ]
