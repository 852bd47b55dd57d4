-- ===== src/Map/Tests.antt =====
-- A map of numbers to numbers, in a database that is a list of changes, and the theorems at its states.
use taurus_cdt.Prelude.{
  ℕ, ◌≡◌, ◌≢◌, ◌⊎◌, refl, sym, ap, ◌∙◌, List, [], ◌∷◌, ◌++◌, Option, none, some, Bool-cases, inl,
  inr, true, false, ok, err, length, arith,
}
use taurus_cdt.Kv.Keys
use taurus_cdt.Kv.Keys.{Bytes, bytes_eq, bytes_eq→eq}
use taurus_cdt.Kv.Cursors.{iterator_ok, Lt}
use taurus_cdt.Kv.ListHost.{Changes, lookup, list_host, bytes_leb}
use taurus_cdt.Kv.ListCursors.{list_cursors}
use taurus_cdt.Kv.ListLaws.{list_cursors-CursorLaws}
use taurus_cdt.Map.{
  key_not_found, incrementing_past_end, MapType, Lawful, le_bytes, const_pack, prefix, self_prefix,
  full_key, get, contains, at, store_elems,
}
use taurus_cdt.Map.Iterator.{
  Iterator, is_valid, same, materialize, find, end, reverse_increment, increment_bytes, upper_bound,
  ranged_slice,
}
use taurus_cdt.Map.Position.{Placed}
use taurus_cdt.Map.Content.{
  Op, put, touch, remove, is_some, Holds, run, contents_after, get_or_fail, run-contents,
}
use taurus_cdt.Map.Find.{find-at}
use taurus_cdt.Map.OtherIndex.{elems, other_index-lost}
use taurus_cdt.Map.Reverse.{Moves, reverse_increment-Moves}
use taurus_cdt.Map.Slice.{Lists, Value, ranged_slice-Lists}
use taurus_cdt.Map.UpperBound.{increment_bytes-high, upper_bound-Placed}

abbrev read : Bytes → Option ℕ
read [] = none
read (n ∷ rest) = some n

abbrev of_index : ℕ → MapType ℕ ℕ
of_index i = record {
  table_name = 7;
  index_name = i;
  default_index_name = 1;
  convert_to_key = λ n. n ∷ [];
  pack = λ v. v ∷ [];
  unpack = read;
  initial = 0;
}

abbrev numbers : MapType ℕ ℕ
numbers = of_index 1

numbers-Lawful : Lawful numbers
numbers-Lawful = record { unpack-pack = λ v. refl }

abbrev key_of : ℕ → Bytes
key_of n = 1 ∷ 0 ∷ 0 ∷ 0 ∷ 0 ∷ 0 ∷ 0 ∷ 0 ∷ 7 ∷ 0 ∷ 0 ∷ 0 ∷ 0 ∷ 0 ∷ 0 ∷ 0 ∷ 1 ∷ n ∷ []

full_key_of : (n : ℕ) → full_key numbers n ≡ key_of n
unfolding full_key prefix const_pack le_bytes Keys.full_key
full_key_of n = refl

-- The keys 3 and 5, of the values 30 and 50.
abbrev two_keys : Changes
two_keys = (key_of 5, some (50 ∷ [])) ∷ (key_of 3, some (30 ∷ [])) ∷ []

blank-Holds : Holds numbers list_host [] (λ k. none)
unfolding Holds get
blank-Holds k = refl

abbrev program : List (Op ℕ ℕ)
program = put 3 30 ∷ touch 4 ∷ put 3 31 ∷ remove 5 ∷ []

run-contents_example :
    (s' : Changes) × (run numbers list_host [] program ≡ ok s')
    × ((k : ℕ)
        → (contains numbers list_host s' k ≡ is_some (contents_after numbers (λ k. none) program k))
          × (at numbers list_host s' k
              ≡ get_or_fail numbers list_host
                  (contents_after numbers (λ k. none) program k)
                  (full_key numbers k)))
run-contents_example =
    run-contents numbers list_host [] (λ k. none) program numbers-Lawful blank-Holds

find-at_example :
    ((contains numbers list_host two_keys 3 ≡ true)
      × (is_valid numbers list_host list_cursors (find numbers list_host list_cursors two_keys 3)
          ≡ true)
      × (materialize numbers list_host list_cursors two_keys
            (find numbers list_host list_cursors two_keys 3)
          ≡ at numbers list_host two_keys 3))
    ⊎ ((contains numbers list_host two_keys 3 ≡ false)
        × (same numbers list_host list_cursors
              (find numbers list_host list_cursors two_keys 3)
              (end numbers list_host list_cursors two_keys)
            ≡ true)
        × (at numbers list_host two_keys 3 ≡ err key_not_found))
unfolding prefix self_prefix
find-at_example = find-at numbers list_cursors list_cursors-CursorLaws two_keys 3 refl

other_index-lost_example :
    ((k : ℕ)
      → same
          (of_index 2)
          list_host
          list_cursors
          (find (of_index 2) list_host list_cursors two_keys k)
          (end (of_index 2) list_host list_cursors two_keys)
        ≡ true)
    × ((l : List (ℕ × ℕ)) (k : ℕ)
        → get
            (of_index 2)
            list_host
            (store_elems (of_index 2) list_host two_keys (elems (of_index 2) list_host l))
            (full_key (of_index 2) k)
          ≡ get (of_index 2) list_host two_keys (full_key (of_index 2) k))
other_index-lost_example =
    other_index-lost (of_index 2) list_host list_cursors list_cursors-CursorLaws two_keys
      (omega arith) (omega arith) (λ e. omega (arith, e))

-- An iterator at the key 5.
abbrev at_five : Iterator numbers list_host list_cursors
at_five = record {
  handle = record { prefix = self_prefix numbers; stands = some (key_of 5) };
  current_status = iterator_ok;
}

five_used : lookup two_keys (key_of 5) ≢ none
unfolding bytes_eq
five_used e = cc

reverse_increment-Moves_example :
    Moves numbers list_cursors list_cursors-CursorLaws two_keys at_five (key_of 5)
reverse_increment-Moves_example =
    reverse_increment-Moves numbers list_cursors list_cursors-CursorLaws two_keys at_five (key_of 5)
      refl refl five_used

-- From the first key on, `++` of a reverse iterator fails.
reverse_at_first :
    reverse_increment numbers list_host list_cursors two_keys (record {
      handle = record { prefix = key_of 1; stands = some (key_of 3) };
      current_status = iterator_ok;
    })
    ≡ err incrementing_past_end
unfolding reverse_increment bytes_eq
reverse_at_first = refl

full_three : Value numbers list_cursors list_cursors-CursorLaws two_keys (full_key numbers 3) 30
unfolding full_key prefix const_pack le_bytes Keys.full_key bytes_eq
full_three = record { bytes = 30 ∷ []; stored = refl; unpacks = refl }

between : (j : Bytes) → key_of 3 ≢ j → j ≢ key_of 5 → lookup two_keys j ≡ none
between j n m = elim (Bool-cases (bytes_eq (key_of 5) j)) [
  | inl p ↦ absurd (m (sym (bytes_eq→eq (key_of 5) j p)))
  | inr p ↦ elim (Bool-cases (bytes_eq (key_of 3) j)) [
    | inl q ↦ absurd (n (bytes_eq→eq (key_of 3) j q))
    | inr q ↦ rw (p, q) refl
  ]
]

key_of_injective : (a b : ℕ) → key_of a ≡ key_of b → a ≡ b
key_of_injective a b e = cc

three_listed :
    Lists numbers list_cursors list_cursors-CursorLaws two_keys
      (full_key numbers 5)
      (λ j. bytes_leb (full_key numbers 3) j ≡ true)
      ((full_key numbers 3, 30) ∷ [])
unfolding full_key prefix self_prefix const_pack le_bytes Keys.full_key
three_listed = (
  full_three,
  (3 ∷ [], refl),
  refl,
  (refl, λ e. omega (arith, key_of_injective 3 5 e)),
  λ r f b n. f,
  λ r f b. between _ f.1 b.1,
)

ranged_slice-Lists_example :
    ranged_slice numbers list_host list_cursors 2 two_keys 3 5
    ≡ ok (record { key = full_key numbers 3; value = 30 } ∷ [])
unfolding full_key prefix const_pack le_bytes Keys.full_key
ranged_slice-Lists_example =
    ranged_slice-Lists numbers list_cursors list_cursors-CursorLaws two_keys 3 5
      ((full_key numbers 3, 30) ∷ []) refl three_listed

used_lengths : (j : Bytes) → lookup two_keys j ≢ none → length j ≡ 18
used_lengths j n = elim (Bool-cases (bytes_eq (key_of 5) j)) [
  | inl p ↦ ap length (sym (bytes_eq→eq (key_of 5) j p))
  | inr p ↦ elim (Bool-cases (bytes_eq (key_of 3) j)) [
    | inl q ↦ ap length (sym (bytes_eq→eq (key_of 3) j q))
    | inr q ↦ absurd (n (rw (p, q) refl))
  ]
]

length-full_key : (n : ℕ) → length (full_key numbers n) ≡ 18
length-full_key n = ap length (full_key_of n)

three_ends : full_key numbers 3 ≡ prefix numbers ++ 3 ∷ []
unfolding full_key Keys.full_key
three_ends = refl

upper_bound-Placed_example :
    (it : Iterator numbers list_host list_cursors) × (upper_bound numbers list_host list_cursors
        two_keys 3
      ≡ ok it)
    × Placed numbers list_cursors list_cursors-CursorLaws two_keys
        (λ j k. bytes_leb j k ≡ true)
        (λ j. Lt list_cursors (full_key numbers 3) j)
        it
upper_bound-Placed_example =
    upper_bound-Placed numbers list_cursors list_cursors-CursorLaws two_keys 3 (prefix numbers) 3
      three_ends (omega arith) (λ j l. (λ e. e, λ e. e))
      (λ r u. used_lengths (Keys.full_key (self_prefix numbers) r) u ∙ sym (length-full_key 3))

increment_bytes-high_example :
    (increment_bytes (9 ∷ 255 ∷ []) ≡ ok (9 ∷ 0 ∷ []))
    × (bytes_leb (9 ∷ 0 ∷ []) (9 ∷ 255 ∷ []) ≡ true)
    × (bytes_leb (9 ∷ 255 ∷ []) (9 ∷ 0 ∷ []) ≡ false)
    × (increment_bytes (9 ∷ 1 ∷ 200 ∷ []) ≡ ok (9 ∷ 2 ∷ 201 ∷ []))
    × (bytes_leb (9 ∷ 1 ∷ 200 ∷ []) (9 ∷ 1 ∷ 210 ∷ []) ≡ true)
    × (bytes_leb (9 ∷ 2 ∷ 201 ∷ []) (9 ∷ 1 ∷ 210 ∷ []) ≡ false)
increment_bytes-high_example =
    increment_bytes-high (9 ∷ []) 1 200 210 (omega arith) (omega arith) (omega arith) (omega arith)
