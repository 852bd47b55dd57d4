-- ===== src/Kv/Table/Tests.antt =====
-- A table of accounts by number with an index by a name, and the theorems at its states.
use taurus_cdt.Prelude.{
  ℕ, ◌≡◌, ◌≢◌, refl, subst, ◌↔◌, [], ◌∷◌, false, Option, none, some, ok, err, arith, inl, inr,
}
use taurus_cdt.Kv.Keys.{Bytes, full_key}
use taurus_cdt.Kv.Hex.{from_hex, to_hex}
use taurus_cdt.Kv.Hex.RoundTrip.{from_hex-to_hex}
use taurus_cdt.Kv.Host.{map_host}
use taurus_cdt.Kv.Table.{Index, Schema, Lawful, put, erase, get, make_prefix}
use taurus_cdt.Kv.Table.Rows.{Stored, Consistent}
use taurus_cdt.Kv.Table.Consistency.{Named, Outcome, put-Outcome}
use taurus_cdt.Kv.Table.Erase.{erase-Consistent}
use taurus_cdt.Kv.Table.Get.{Found, get-Found}

record Account : Type 0 where
  id : ℕ
  name : ℕ

abbrev by_id : Index Account
by_id = record { name = 1; key = λ a. a.id ∷ [] }

abbrev by_name : Index Account
by_name = record { name = 2; key = λ a. a.name ∷ [] }

abbrev unpack : Bytes → Option Account
unpack [] = none
unpack (i ∷ []) = none
unpack (i ∷ n ∷ rest) = some (record { id = i; name = n })

abbrev get_uint : Bytes → Option (ℕ × Bytes)
get_uint [] = none
get_uint (n ∷ rest) = some (n, rest)

abbrev accounts : Schema Account
accounts = record {
  table_name = 7;
  primary = by_id;
  secondary = by_name ∷ [];
  tuple_key = λ s t i. s ∷ t ∷ i ∷ [];
  pack = λ a. a.id ∷ a.name ∷ [];
  unpack = unpack;
  is_variant = false;
  put_uint = λ n. n ∷ [];
  get_uint = get_uint;
}

accounts-Lawful : Lawful accounts
accounts-Lawful = record {
  unpack-pack = λ v. refl;
  get-put = λ n rest. refl;
  prefix_length = λ a b. refl;
  prefix_injective = λ a b e. cc;
}

accounts-Named : Named accounts
accounts-Named = record { from_primary = (omega arith, tt); apart = (tt, tt) }

abbrev blank : map_host.Store
blank k = none

blank-Consistent : Consistent accounts map_host blank
blank-Consistent = record {
  primary = λ k bytes e. cc;
  indices = (record { leads = λ v e. cc; sound = λ k bytes e. cc }, tt);
}

abbrev ann : Account
ann = record { id = 1; name = 10 }

abbrev renamed : Account
renamed = record { id = 1; name = 11 }

put-Outcome_example :
    Outcome accounts map_host accounts-Lawful accounts-Named blank blank-Consistent ann
      (put accounts map_host blank ann)
put-Outcome_example =
    put-Outcome accounts map_host accounts-Lawful accounts-Named blank blank-Consistent ann

-- The table with one row.
one_row : map_host.Store
one_row k = elim (put accounts map_host blank ann) [ ok s ↦ s k | err e ↦ none ]

put-ann : put accounts map_host blank ann ≡ ok one_row
unfolding put one_row
put-ann = refl

one_row-Outcome :
    Outcome accounts map_host accounts-Lawful accounts-Named blank blank-Consistent ann (ok one_row)
one_row-Outcome =
    subst (Outcome accounts map_host accounts-Lawful accounts-Named blank blank-Consistent ann)
      put-ann
      (put-Outcome accounts map_host accounts-Lawful accounts-Named blank blank-Consistent ann)

one_row-Consistent : Consistent accounts map_host one_row
one_row-Consistent = one_row-Outcome.1

ann-Stored : Stored accounts map_host one_row ann
ann-Stored = (one_row-Outcome.2 ann).1 (inl refl)

erase-Consistent_example :
    Consistent accounts map_host (erase accounts map_host one_row ann)
    × ((u : Account)
        → Stored accounts map_host (erase accounts map_host one_row ann) u ↔ (
            Stored accounts map_host one_row u
            × (accounts.primary.key u ≢ accounts.primary.key ann)))
erase-Consistent_example =
    erase-Consistent accounts map_host accounts-Lawful accounts-Named one_row one_row-Consistent ann
      ann-Stored

get-Found_example :
    Found accounts map_host accounts-Lawful one_row by_name (10 ∷ []) (
      get accounts map_host one_row by_name
        (full_key (make_prefix accounts by_name.name) (10 ∷ [])))
get-Found_example =
    get-Found accounts map_host accounts-Lawful accounts-Named one_row one_row-Consistent (10 ∷ [])
      by_name (inr (0, refl))

from_hex-to_hex_example : from_hex (to_hex (0 ∷ 171 ∷ 255 ∷ [])) ≡ some (0 ∷ 171 ∷ 255 ∷ [])
from_hex-to_hex_example = from_hex-to_hex (0 ∷ 171 ∷ 255 ∷ []) (omega arith)
