-- ===== src/Kv/Host.antt =====
-- The key-value database of the host, as kv_base.hpp declares it: `kv_get` with the `kv_get_data`
-- that follows it, `kv_set` and `kv_erase`, for the keys of one contract.
use taurus_cdt.Prelude.{◌≡◌, refl, Option, none, some, if◌then◌else◌}
use taurus_cdt.Kv.Keys.{Bytes, bytes_eq}

pub record KvHost : Type 1 where
  pub Store : Type 0
  pub kv_get : Store → Bytes → Option Bytes
  pub kv_set : Store → Bytes → Bytes → Store
  pub kv_erase : Store → Bytes → Store
  pub get-set :
      (s : Store) (k v j : Bytes)
      → kv_get (kv_set s k v) j ≡ (if bytes_eq k j then some v else kv_get s j)
  pub get-erase :
      (s : Store) (k j : Bytes)
      → kv_get (kv_erase s k) j ≡ (if bytes_eq k j then none else kv_get s j)

-- A database as a function from keys to values.
abbrev pub map_host : KvHost
map_host = record {
  Store = Bytes → Option Bytes;
  kv_get = λ s k. s k;
  kv_set = λ s k v j. if bytes_eq k j then some v else s j;
  kv_erase = λ s k j. if bytes_eq k j then none else s j;
  get-set = λ s k v j. refl;
  get-erase = λ s k j. refl;
}
