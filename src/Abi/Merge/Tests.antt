-- ===== src/Abi/Merge/Tests.antt =====
-- ABI files of aliases and a variant as flat lists of numbers, and the theorems of the merge at them.
use taurus_cdt.Prelude.{
  ℕ, ◌≡◌, ◌↔◌, List, [], ◌∷◌, ◌++◌, ◌||◌, ltb, leb, if◌then◌else◌, ok, take, drop, list_eqb,
  list_eqb_iff,
}
use text.Mathlib.Text.{◌==◌ as str_eq}
use taurus_cdt.Abi.Json.{Ojson}
use taurus_cdt.Abi.Same.{type_is_same}
use taurus_cdt.Abi.Merge.{add_object_to_array}
use taurus_cdt.Abi.Merge.Arrays.{AllAgree, undefined_in, add_object_to_array_iff}

abbrev singles : List ℕ → List (List ℕ)
singles [] = []
singles (x ∷ xs) = (x ∷ []) ∷ singles xs

abbrev pairs : List ℕ → List (List ℕ)
pairs [] = []
pairs (x ∷ []) = []
pairs (x ∷ y ∷ xs) = (x ∷ y ∷ []) ∷ pairs xs

-- The name of a definition comes first.
abbrev flat : (List ℕ → List (List ℕ)) → Ojson
flat range = record {
  Json = List ℕ;
  eqb = list_eqb;
  eqb_iff = list_eqb_iff;
  at = λ x key. if str_eq key "new_type_name" || str_eq key "name" then take 1 x else drop 1 x;
  array_range = range;
  size = λ x. 0;
  array_at = λ x key. x;
  object_at = λ x key. x;
  object_range = λ x. [];
  empty_object = [];
  insert_or_assign = λ x k v. x;
  Double = ℕ;
  twelve = 12;
  less_than = ltb;
  at_least = λ a b. leb b a;
  version_number = λ x. 12;
}

add_object_to_array_iff_example :
    (add_object_to_array
        (flat pairs)
        (type_is_same (flat pairs))
        "types"
        "new_type_name"
        (1 ∷ 10 ∷ 2 ∷ 20 ∷ [])
        (2 ∷ 20 ∷ 3 ∷ 30 ∷ [])
      ≡ ok ((1 ∷ 10 ∷ []) ∷ (2 ∷ 20 ∷ []) ∷ (3 ∷ 30 ∷ []) ∷ []))
    ↔ (AllAgree
          (flat pairs)
          (type_is_same (flat pairs))
          "new_type_name"
          (pairs (1 ∷ 10 ∷ 2 ∷ 20 ∷ []))
          (pairs (2 ∷ 20 ∷ 3 ∷ 30 ∷ []))
        × (((1 ∷ 10 ∷ []) ∷ (2 ∷ 20 ∷ []) ∷ (3 ∷ 30 ∷ []) ∷ []) ≡ (
            pairs (1 ∷ 10 ∷ 2 ∷ 20 ∷ [])
            ++ undefined_in
                (flat pairs)
                (type_is_same (flat pairs))
                "new_type_name"
                (pairs (1 ∷ 10 ∷ 2 ∷ 20 ∷ []))
                (pairs (2 ∷ 20 ∷ 3 ∷ 30 ∷ [])))))
add_object_to_array_iff_example =
    add_object_to_array_iff (flat pairs) (type_is_same (flat pairs)) "new_type_name" "types"
      (1 ∷ 10 ∷ 2 ∷ 20 ∷ []) (2 ∷ 20 ∷ 3 ∷ 30 ∷ [])
      ((1 ∷ 10 ∷ []) ∷ (2 ∷ 20 ∷ []) ∷ (3 ∷ 30 ∷ []) ∷ [])
