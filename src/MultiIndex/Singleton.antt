-- ===== src/MultiIndex/Singleton.antt =====
-- `singleton` of libraries/eosiolib/contracts/eosio/singleton.hpp: a table with one row, whose primary key is
-- the table's name, `pk_value`.
pub mod Contents
use taurus_cdt.Prelude.{ℕ, Bool, true, false, Option, none, some, Result, ok, err, ◌>>=◌}
use taurus_cdt.MultiIndex.Host.{DbHost}
use taurus_cdt.MultiIndex.{
  Schema, Failure, singleton_does_not_exist, Item, Table, find, emplace, or_failure,
}
use taurus_cdt.MultiIndex.Iterator.{modify_at, erase_at}

module _ {V Key : Type 0} (t : Schema V Key) (host : DbHost Key) (pk_value : ℕ) where
  abbrev pub is_some : Option (Item V) → Bool
  is_some none = false
  is_some (some i) = true

  unfoldable pub exists : Table t host → Result Failure (Bool × Table t host)
  unfolding find
  exists m = find t host m pk_value >>= λ (itr, m'). ok (is_some itr, m')

  unfoldable pub get : Table t host → Result Failure (V × Table t host)
  unfolding find
  get m = do
    (itr, m') ← find t host m pk_value
    i ← or_failure itr singleton_does_not_exist
    ok (i.obj, m')

  abbrev pub value_or : V → Option (Item V) → V
  value_or def none = def
  value_or def (some i) = i.obj

  unfoldable pub get_or_default : V → Table t host → Result Failure (V × Table t host)
  unfolding find
  get_or_default def m = find t host m pk_value >>= λ (itr, m'). ok (value_or def itr, m')

  unfoldable pub create_if_none :
      V → Option (Item V) × Table t host → Result Failure (V × Table t host)
  unfolding emplace
  create_if_none def (some i, m) = ok (i.obj, m)
  create_if_none def (none, m) = emplace t host m def >>= λ (i, m'). ok (i.obj, m')

  unfoldable pub get_or_create : V → Table t host → Result Failure (V × Table t host)
  unfolding find create_if_none
  get_or_create def m = find t host m pk_value >>= λ r. create_if_none def r

  unfoldable pub store_at : V → Option (Item V) × Table t host → Result Failure (Table t host)
  unfolding modify_at emplace
  store_at value (some i, m) = modify_at t host m (some i) (λ r. value)
  store_at value (none, m) = emplace t host m value >>= λ (i, m'). ok m'

  unfoldable pub set : V → Table t host → Result Failure (Table t host)
  unfolding find store_at
  set value m = find t host m pk_value >>= λ r. store_at value r

  unfoldable pub erase_found : Option (Item V) × Table t host → Result Failure (Table t host)
  unfolding erase_at
  erase_found (none, m) = ok m
  erase_found (some i, m) = erase_at t host m (some i) >>= λ (following, m'). ok m'

  unfoldable pub remove : Table t host → Result Failure (Table t host)
  unfolding find erase_found
  remove m = find t host m pk_value >>= λ r. erase_found r
