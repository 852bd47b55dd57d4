-- ===== src/Abi/Same.antt =====
-- When two definitions of one name count as one: the predicates of ABIMerger in
-- tools/include/eosio/abimerge.hpp.
use taurus_cdt.Prelude.{
  ◌≡◌, ◌↔◌, refl, sym, List, [], ◌∷◌, Bool, true, false, ◌&&◌, ◌||◌, ◌==◌, All, arith, inl, inr,
  ◌⊎◌, Bool-cases, &&_iff,
}
use taurus_cdt.Abi.Json.{Ojson}

module _ (j : Ojson) where
  open j use {Json, eqb, at, array_range, size}

  -- The loop that sets `found_field`.
  unfoldable pub has_field : Json → List Json → Bool
  has_field a_field [] = false
  has_field a_field (b_field ∷ bs) =
      eqb (at a_field "name") (at b_field "name") && eqb (at a_field "type") (at b_field "type")
      || has_field a_field bs

  unfoldable pub has_fields : List Json → List Json → Bool
  unfolding has_field
  has_fields [] bs = true
  has_fields (a ∷ aa) bs = has_field a bs && has_fields aa bs

  unfoldable pub struct_is_same : Json → Json → Bool
  unfolding has_fields
  struct_is_same a b =
      has_fields (array_range (at a "fields")) (array_range (at b "fields"))
      && (eqb (at a "name") (at b "name")
          && eqb (at a "base") (at b "base")
          && size (at a "fields") == size (at b "fields"))

  unfoldable pub type_is_same : Json → Json → Bool
  type_is_same a b =
      eqb (at a "new_type_name") (at b "new_type_name") && eqb (at a "type") (at b "type")

  unfoldable pub action_is_same : Json → Json → Bool
  action_is_same a b =
      eqb (at a "name") (at b "name")
      && eqb (at a "type") (at b "type")
      && eqb (at a "ricardian_contract") (at b "ricardian_contract")

  -- The loop that sets `found_ty`.
  unfoldable pub has_type : Json → List Json → Bool
  has_type tya [] = false
  has_type tya (tyb ∷ bs) = eqb tyb tya || has_type tya bs

  unfoldable pub has_types : List Json → List Json → Bool
  unfolding has_type
  has_types [] bs = true
  has_types (a ∷ aa) bs = has_type a bs && has_types aa bs

  unfoldable pub variant_is_same : Json → Json → Bool
  unfolding has_types
  variant_is_same a b =
      has_types (array_range (at a "types")) (array_range (at b "types"))
      && eqb (at a "name") (at b "name")

  unfoldable pub table_is_same : Json → Json → Bool
  table_is_same a b =
      eqb (at a "name") (at b "name")
      && eqb (at a "type") (at b "type")
      && eqb (at a "index_type") (at b "index_type")
      && eqb (at a "key_names") (at b "key_names")
      && eqb (at a "key_types") (at b "key_types")

  unfoldable pub clause_is_same : Json → Json → Bool
  clause_is_same a b = eqb (at a "id") (at b "id") && eqb (at a "body") (at b "body")

  unfoldable pub action_result_is_same : Json → Json → Bool
  action_result_is_same a b =
      eqb (at a "name") (at b "name") && eqb (at a "result_type") (at b "result_type")

  -- A value stands in a list.
  abbrev pub Among : Json → List Json → Type 0
  Among x [] = ⊥
  Among x (y ∷ ys) = (x ≡ y) ⊎ Among x ys

  has_type_iff : (a : Json) (bs : List Json) → (has_type a bs ≡ true) ↔ Among a bs
  unfolding has_type
  has_type_iff a [] = (λ e. cc, λ e. absurd e)
  has_type_iff a (b ∷ bs) = (
    λ e. elim (Bool-cases (eqb b a)) [
      | inl p ↦ inl (sym ((j.eqb_iff b a).0 p))
      | inr p ↦ inr ((has_type_iff a bs).0 (rw p at e))
    ],
    λ m. elim m [
      | inl p ↦ rw ((j.eqb_iff b a).1 (sym p)) refl
      | inr m ↦ (let q = (has_type_iff a bs).1 m in ground arith)
    ],
  )

  has_types_iff : (aa bs : List Json) → (has_types aa bs ≡ true) ↔ All (λ a. Among a bs) aa
  unfolding has_types
  has_types_iff [] bs = (λ e. tt, λ e. refl)
  has_types_iff (a ∷ aa) bs = (
    λ e.
        let (p, q) = (&&_iff (has_type a bs) (has_types aa bs)).0 e in
        ((has_type_iff a bs).0 p, (has_types_iff aa bs).0 q),
    λ h.
        (&&_iff (has_type a bs) (has_types aa bs)).1
          ((has_type_iff a bs).1 h.0, (has_types_iff aa bs).1 h.1),
  )

  -- Two variants count as one exactly when their names agree and each alternative of the first is
  -- one of the second: the second may have more.
  pub variant_is_same_iff :
      (a b : Json)
      → (variant_is_same a b ≡ true) ↔ (
          All (λ x. Among x (array_range (at b "types"))) (array_range (at a "types"))
          × (at a "name" ≡ at b "name"))
  unfolding variant_is_same
  variant_is_same_iff a b = (
    λ e.
        let (p, q) = (&&_iff _ _).0 e in
        (
          (has_types_iff (array_range (at a "types")) (array_range (at b "types"))).0 p,
          (j.eqb_iff _ _).0 q,
        ),
    λ h. (&&_iff _ _).1 (
      (has_types_iff (array_range (at a "types")) (array_range (at b "types"))).1 h.0,
      (j.eqb_iff _ _).1 h.1,
    ),
  )
