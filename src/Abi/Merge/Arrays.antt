-- ===== src/Abi/Merge/Arrays.antt =====
-- `add_object_to_array` of tools/include/eosio/abimerge.hpp against a filter: what a section of the
-- merged ABI holds, and when the merge is refused.
use taurus_cdt.Prelude.{
  ◌≡◌, ◌↔◌, refl, sym, ap, ◌∙◌, List, [], ◌∷◌, ◌++◌, Bool, true, false, ◌||◌, if◌then◌else◌, Result,
  ok, err, ◌>>=◌, All, Bool-cases, inl, inr,
}
use Prim.Native.String.{String}
use mathlib.Core.List.{append-nil, append_assoc}
use taurus_cdt.Abi.Json.{Ojson}
use taurus_cdt.Abi.Merge.{Malformed, scan_array, push_array, add_object_to_array}

module _ (j : Ojson) (same : j.Json → j.Json → Bool) (id : String) where
  open j use {Json, eqb, at, array_range, array_at}

  -- Some element of the list has the identifier of `b`.
  unfoldable pub defines : List Json → Json → Bool
  defines [] b = false
  defines (a ∷ aa) b = eqb (at a id) (at b id) || defines aa b

  -- The elements that the list does not define.
  unfoldable pub undefined_in : List Json → List Json → List Json
  unfolding defines
  undefined_in aa [] = []
  undefined_in aa (b ∷ bb) = if defines aa b then undefined_in aa bb else b ∷ undefined_in aa bb

  -- Elements with one identifier are the same.
  abbrev pub Agrees : Json → Json → Type 0
  Agrees a b = at a id ≡ at b id → same a b ≡ true

  abbrev pub AllAgree : List Json → List Json → Type 0
  AllAgree aa bb = All (λ b. All (λ a. Agrees a b) aa) bb

  abbrev Scanned : List Json → Json → Bool → Result Malformed Bool → Type 0
  Scanned aa b skip (ok r) = (r ≡ (defines aa b || skip)) × All (λ a. Agrees a b) aa
  Scanned aa b skip (err e) = ¬ All (λ a. Agrees a b) aa

  Scanned-cons :
      (a b : Json) (aa : List Json) (s t : Bool) (m : Result Malformed Bool)
      → Agrees a b
      → (defines aa b || t) ≡ (defines (a ∷ aa) b || s)
      → Scanned aa b t m
      → Scanned (a ∷ aa) b s m
  Scanned-cons a b aa s t (ok r) ag e h = (h.0 ∙ e, (ag, h.1))
  Scanned-cons a b aa s t (err x) ag e h = λ k. h k.1

  ||-true : (p q : Bool) → (p || true) ≡ ((true || p) || q)
  ||-true true q = refl
  ||-true false q = refl

  scan_array-Scanned :
      (b : Json) (aa : List Json) (skip : Bool) → Scanned aa b skip (scan_array j same id b aa skip)
  unfolding scan_array defines
  scan_array-Scanned b [] skip = (refl, tt)
  scan_array-Scanned b (a ∷ aa) skip = elim (Bool-cases (eqb (at a id) (at b id))) [
    | inl p ↦ elim (Bool-cases (same a b)) [
      | inl q ↦
          (let h =
              Scanned-cons a b aa skip true (scan_array j same id b aa true) (λ e. q)
                (rw p (||-true (defines aa b) skip)) (scan_array-Scanned b aa true) in
            rw (p, q) h)
      | inr q ↦ rw (p, q) (λ k. (let r = k.0 ((j.eqb_iff (at a id) (at b id)).0 p) in cc))
    ]
    | inr p ↦
        (let h =
            Scanned-cons a b aa skip skip (scan_array j same id b aa skip)
              (λ e. (let t = (j.eqb_iff (at a id) (at b id)).1 e in cc)) (rw p refl)
              (scan_array-Scanned b aa skip) in
          rw p h)
  ]

  abbrev Pushed : List Json → List Json → List Json → Result Malformed (List Json) → Type 0
  Pushed aa bb ret (ok r) = (r ≡ (ret ++ undefined_in aa bb)) × AllAgree aa bb
  Pushed aa bb ret (err e) = ¬ AllAgree aa bb

  ||-false : (p : Bool) → (p || false) ≡ p
  ||-false true = refl
  ||-false false = refl

  Pushed-skip :
      (b : Json) (aa bb ret : List Json) (m : Result Malformed (List Json))
      → defines aa b ≡ true
      → All (λ a. Agrees a b) aa
      → Pushed aa bb ret m
      → Pushed aa (b ∷ bb) ret m
  unfolding undefined_in
  Pushed-skip b aa bb ret (ok r) d ag h = (rw d h.0, (ag, h.1))
  Pushed-skip b aa bb ret (err e) d ag h = λ k. h k.1

  Pushed-add :
      (b : Json) (aa bb ret : List Json) (m : Result Malformed (List Json))
      → defines aa b ≡ false
      → All (λ a. Agrees a b) aa
      → Pushed aa bb (ret ++ b ∷ []) m
      → Pushed aa (b ∷ bb) ret m
  unfolding undefined_in
  Pushed-add b aa bb ret (ok r) d ag h =
      (rw d (h.0 ∙ append_assoc ret (b ∷ []) (undefined_in aa bb)), (ag, h.1))
  Pushed-add b aa bb ret (err e) d ag h = λ k. h k.1

  Pushed-Scanned :
      (b : Json) (aa bb ret : List Json) (m : Result Malformed Bool)
      → Scanned aa b false m
      → ((r : List Json) → Pushed aa bb r (push_array j same id aa bb r))
      → Pushed aa
          (b ∷ bb)
          ret
          (m >>= λ skip. push_array j same id aa bb (if skip then ret else (ret ++ b ∷ [])))
  Pushed-Scanned b aa bb ret (ok true) h k =
      Pushed-skip b aa bb ret (push_array j same id aa bb ret) (sym (h.0 ∙ ||-false (defines aa b)))
        h.1 (k ret)
  Pushed-Scanned b aa bb ret (ok false) h k =
      Pushed-add b aa bb ret (push_array j same id aa bb (ret ++ b ∷ []))
        (sym (h.0 ∙ ||-false (defines aa b))) h.1 (k (ret ++ b ∷ []))
  Pushed-Scanned b aa bb ret (err e) h k = λ q. h q.0

  push_array-Pushed : (aa bb ret : List Json) → Pushed aa bb ret (push_array j same id aa bb ret)
  unfolding push_array undefined_in
  push_array-Pushed aa [] ret = (sym (append-nil ret), tt)
  push_array-Pushed aa (b ∷ bb) ret =
      Pushed-Scanned b aa bb ret (scan_array j same id b aa false) (scan_array-Scanned b aa false)
        (λ r. push_array-Pushed aa bb r)

  Pushed-iff :
      (aa bb ret r : List Json) (m : Result Malformed (List Json))
      → Pushed aa bb ret m
      → (m ≡ ok r) ↔ (AllAgree aa bb × (r ≡ (ret ++ undefined_in aa bb)))
  Pushed-iff aa bb ret r (ok x) h = (λ e. (h.1, cc), λ k. ap ok (h.0 ∙ sym k.1))
  Pushed-iff aa bb ret r (err e) h = (λ e. cc, λ k. absurd (h k.0))

  -- The merge of one section, with `same` the test it is given, succeeds exactly when any two elements
  -- of the two files that have one identifier are the same for `same`. Its result is then the
  -- elements of the first file, in their order, followed by those of the second that the first does
  -- not define, in theirs.
  pub add_object_to_array_iff :
      (type : String) (a b : Json) (r : List Json)
      → (add_object_to_array j same type id a b ≡ ok r) ↔ (
          AllAgree (array_range (array_at a type)) (array_range (array_at b type))
          × (r ≡ (
              array_range (array_at a type)
              ++ undefined_in (array_range (array_at a type)) (array_range (array_at b type)))))
  unfolding add_object_to_array
  add_object_to_array_iff type a b r =
      Pushed-iff (array_range (array_at a type)) (array_range (array_at b type))
        (array_range (array_at a type)) r (add_object_to_array j same type id a b)
        (push_array-Pushed (array_range (array_at a type)) (array_range (array_at b type))
          (array_range (array_at a type)))
