-- ===== src/Abi/Merge.antt =====
-- `ABIMerger` of tools/include/eosio/abimerge.hpp: the merge of two ABI files, section by section.
pub mod Arrays
mod Tests
use taurus_cdt.Prelude.{
  ℕ, suc, ◌≤◌, ◌≡◌, List, [], ◌∷◌, ◌++◌, Bool, true, false, ◌&&◌, ◌||◌, not, leb, ltb,
  if◌then◌else◌, Option, none, some, Result, ok, err, ◌>>=◌, ◌>>◌, check,
}
use Prim.Native.String.{String}
use text.Mathlib.Text.{◌==◌ as str_eq}
use taurus_cdt.Abi.Json.{Ojson}
use taurus_cdt.Abi.Same.{
  struct_is_same, type_is_same, action_is_same, variant_is_same, table_is_same, clause_is_same,
  action_result_is_same,
}

-- The exception "ABI structs malformed : … already defined".
pub data Malformed : Type 0 where
  already_defined : Malformed

module _ (j : Ojson) where
  open j use {
    Json, eqb, at, array_at, object_at, object_range, empty_object, insert_or_assign, twelve,
    less_than, at_least, version_number,
  }

  -- The inner loop of `add_object_to_array`, with `should_skip`.
  unfoldable pub scan_array :
      (Json → Json → Bool) → String → Json → List Json → Bool → Result Malformed Bool
  scan_array same id b [] should_skip = ok should_skip
  scan_array same id b (a ∷ aa) should_skip =
      let met = eqb (at a id) (at b id) in
      check (not (met && not (same a b))) already_defined
      >> scan_array same id b aa (met || should_skip)

  -- The outer loop. `ret` is what has been pushed.
  unfoldable pub push_array :
      (Json → Json → Bool)
      → String
      → List Json
      → List Json
      → List Json
      → Result Malformed (List Json)
  unfolding scan_array
  push_array same id aa [] ret = ok ret
  push_array same id aa (b ∷ bb) ret = scan_array same id b aa false >>= λ should_skip.
      push_array same id aa bb (if should_skip then ret else (ret ++ b ∷ []))

  unfoldable pub add_object_to_array :
      (Json → Json → Bool) → String → String → Json → Json → Result Malformed (List Json)
  unfolding push_array
  add_object_to_array same type id a b =
      push_array same id (j.array_range (array_at a type)) (j.array_range (array_at b type))
        (j.array_range (array_at a type))

  -- The loops of `add_object_to_object`.
  unfoldable pub scan_object : String → Json → List (String × Json) → Bool → Result Malformed Bool
  scan_object key value [] should_skip = ok should_skip
  scan_object key value ((k, v) ∷ aa) should_skip =
      let met = str_eq k key in
      check (not (met && not (eqb v value))) already_defined
      >> scan_object key value aa (met || should_skip)

  unfoldable pub assign_all : List (String × Json) → Json → Json
  assign_all [] ret = ret
  assign_all ((k, v) ∷ aa) ret = assign_all aa (insert_or_assign ret k v)

  unfoldable pub push_object :
      List (String × Json) → List (String × Json) → Json → Result Malformed Json
  unfolding scan_object
  push_object aa [] ret = ok ret
  push_object aa ((k, v) ∷ bb) ret = scan_object k v aa false >>= λ should_skip.
      push_object aa bb (if should_skip then ret else insert_or_assign ret k v)

  unfoldable pub add_object_to_object : String → Json → Json → Result Malformed Json
  unfolding push_object assign_all
  add_object_to_object type a b =
      push_object (object_range (object_at a type)) (object_range (object_at b type))
        (assign_all (object_range (object_at a type)) empty_object)

  unfoldable pub merge_version : Json → Json → Json
  merge_version abi b =
      let ver_a = at abi "version" in
      let ver_b = at b "version" in
      if less_than (version_number ver_a) (version_number ver_b) then ver_b else ver_a

  unfoldable pub merge_structs : Json → Json → Result Malformed (List Json)
  unfolding add_object_to_array
  merge_structs abi b = add_object_to_array (struct_is_same j) "structs" "name" abi b

  unfoldable pub merge_types : Json → Json → Result Malformed (List Json)
  unfolding add_object_to_array
  merge_types abi b = add_object_to_array (type_is_same j) "types" "new_type_name" abi b

  unfoldable pub merge_variants : Json → Json → Result Malformed (List Json)
  unfolding add_object_to_array
  merge_variants abi b = add_object_to_array (variant_is_same j) "variants" "name" abi b

  unfoldable pub merge_actions : Json → Json → Result Malformed (List Json)
  unfolding add_object_to_array
  merge_actions abi b = add_object_to_array (action_is_same j) "actions" "name" abi b

  unfoldable pub merge_tables : Json → Json → Result Malformed (List Json)
  unfolding add_object_to_array
  merge_tables abi b = add_object_to_array (table_is_same j) "tables" "name" abi b

  unfoldable pub merge_kv_tables : Json → Json → Result Malformed Json
  unfolding add_object_to_object
  merge_kv_tables abi b = add_object_to_object "kv_tables" abi b

  unfoldable pub merge_clauses : Json → Json → Result Malformed (List Json)
  unfolding add_object_to_array
  merge_clauses abi b = add_object_to_array (clause_is_same j) "ricardian_clauses" "id" abi b

  unfoldable pub merge_action_results : Json → Json → Result Malformed (List Json)
  unfolding add_object_to_array
  merge_action_results abi b =
      add_object_to_array (action_result_is_same j) "action_results" "name" abi b

  -- The object that `merge` builds. Sections that it leaves out are `none`.
  pub record Merged : Type 0 where
    pub version : Json
    pub types : List Json
    pub structs : List Json
    pub actions : List Json
    pub tables : List Json
    pub ricardian_clauses : List Json
    pub variants : List Json
    pub kv_tables : Option Json
    pub action_results : Option (List Json)

  unfoldable pub some_unless_empty : List Json → Option (List Json)
  some_unless_empty [] = none
  some_unless_empty (x ∷ xs) = some (x ∷ xs)

  unfoldable pub some_unless_blank : Json → Option Json
  some_unless_blank o = elim (object_range o) [ [] ↦ none | kv ∷ kvs ↦ some o ]

  -- The sections that are there from version 1.2 on.
  unfoldable pub merge_later :
      Bool → Json → Json → Result Malformed (Option Json × Option (List Json))
  unfolding merge_kv_tables merge_action_results some_unless_empty some_unless_blank
  merge_later false abi b = ok (none, none)
  merge_later true abi b = do
    kv ← merge_kv_tables abi b
    res ← merge_action_results abi b
    ok (some_unless_blank kv, some_unless_empty res)

  unfoldable pub merge : Json → Json → Result Malformed Merged
  unfolding merge_version merge_types merge_structs merge_actions merge_tables merge_clauses
      merge_variants merge_later
  merge abi other = do
    let vers = merge_version abi other
    types ← merge_types abi other
    structs ← merge_structs abi other
    actions ← merge_actions abi other
    tables ← merge_tables abi other
    clauses ← merge_clauses abi other
    variants ← merge_variants abi other
    (kv, res) ← merge_later (at_least (version_number vers) twelve) abi other
    ok (record {
      version = vers;
      types = types;
      structs = structs;
      actions = actions;
      tables = tables;
      ricardian_clauses = clauses;
      variants = variants;
      kv_tables = kv;
      action_results = res;
    })
