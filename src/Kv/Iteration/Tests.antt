-- ===== src/Kv/Iteration/Tests.antt =====
-- A table of one account, in a database that is a list of changes.
use taurus_cdt.Prelude.{
  ℕ, ◌≡◌, ◌≢◌, refl, sym, subst, arith, [], ◌∷◌, none, some, ok, true, false, Bool-cases, inl, inr,
}
use taurus_cdt.Kv.Keys.{Bytes, full_key, bytes_eq, bytes_eq→eq}
use taurus_cdt.Kv.ListHost.{Changes, list_host, lookup, bytes_leb}
use taurus_cdt.Kv.ListCursors.{list_cursors}
use taurus_cdt.Kv.ListLaws.{list_cursors-CursorLaws}
use taurus_cdt.Kv.Listing.{Lists}
use taurus_cdt.Kv.Table.{Index, Schema, make_prefix, deserialize}
use taurus_cdt.Kv.Iterator.{row_of, range}
use taurus_cdt.Kv.Range.{Row, range-Lists}
use taurus_cdt.Kv.Iteration.{Searched, find-get}

abbrev by_id : Index ℕ
by_id = record { name = 1; key = λ a. a ∷ [] }

abbrev numbers : Schema ℕ
numbers = record {
  table_name = 7;
  primary = by_id;
  secondary = [];
  tuple_key = λ s t i. s ∷ t ∷ i ∷ [];
  pack = λ a. a ∷ [];
  unpack = λ b. elim b [ [] ↦ none | n ∷ rest ↦ some n ];
  is_variant = false;
  put_uint = λ n. n ∷ [];
  get_uint = λ b. elim b [ [] ↦ none | n ∷ rest ↦ some (n, rest) ];
}

-- The row of 5, and a key of another index.
abbrev filled : Changes
filled = (1 ∷ 7 ∷ 1 ∷ 5 ∷ [], some (0 ∷ 5 ∷ [])) ∷ (1 ∷ 7 ∷ 2 ∷ 3 ∷ [], some (1 ∷ [])) ∷ []

find-get_example :
    Searched numbers list_host list_cursors list_cursors-CursorLaws by_id filled
      (5 ∷ [])
      (some (0 ∷ 5 ∷ []))
unfolding full_key make_prefix bytes_eq
find-get_example =
    find-get numbers list_host list_cursors list_cursors-CursorLaws by_id filled (5 ∷ [])

abbrev key_five : Bytes
key_five = 1 ∷ 7 ∷ 1 ∷ 5 ∷ []

abbrev key_six : Bytes
key_six = 1 ∷ 7 ∷ 1 ∷ 6 ∷ []

abbrev other_key : Bytes
other_key = 1 ∷ 7 ∷ 2 ∷ 3 ∷ []

five_Row : Row numbers list_host list_cursors list_cursors-CursorLaws by_id filled key_five 5
unfolding bytes_eq row_of deserialize
five_Row = record { bytes = 0 ∷ 5 ∷ []; stored = refl; row = refl }

too_high : (j : Bytes) → bytes_leb j key_six ≡ true → other_key ≡ j → ⊥
too_high j l e =
    let u : bytes_leb other_key key_six ≡ true =
      subst (λ j. bytes_leb j key_six ≡ true) (sym e) l in
    cc

five_apart : (a b : ℕ) → (1 ∷ 7 ∷ 1 ∷ a ∷ []) ≡ (1 ∷ 7 ∷ 1 ∷ b ∷ []) → a ≡ b
five_apart a b e = cc

none_between : (j : Bytes) → key_five ≢ j → bytes_leb j key_six ≡ true → lookup filled j ≡ none
none_between j n l = elim (Bool-cases (bytes_eq key_five j)) [
  | inl p ↦ absurd (n (bytes_eq→eq key_five j p))
  | inr p ↦ elim (Bool-cases (bytes_eq other_key j)) [
    | inl q ↦ absurd (too_high j l (bytes_eq→eq other_key j q))
    | inr q ↦ rw (p, q) refl
  ]
]

five_listed :
    Lists list_cursors list_cursors-CursorLaws filled
      (make_prefix numbers 1)
      (Row numbers list_host list_cursors list_cursors-CursorLaws by_id filled)
      key_six
      (λ j. bytes_leb key_five j ≡ true)
      ((key_five, 5) ∷ [])
unfolding make_prefix full_key
five_listed = (
  five_Row,
  (5 ∷ [], refl),
  refl,
  (refl, λ e. omega (arith, five_apart 5 6 e)),
  λ r f b n. f,
  λ r f b. none_between _ f.1 b.0,
)

range-Lists_example :
    range numbers list_host list_cursors by_id 2 filled key_five key_six ≡ ok (5 ∷ [])
range-Lists_example =
    range-Lists numbers list_host list_cursors list_cursors-CursorLaws by_id filled key_five key_six
      ((key_five, 5) ∷ []) five_listed
