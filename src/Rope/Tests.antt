-- ===== src/Rope/Tests.antt =====
-- Ropes that the theorems are applied to.
use taurus_cdt.Prelude.{ℕ, ◌≡◌, refl, [], ◌∷◌, ◌++◌, ok, err, arith, some, get_elem?}
use taurus_cdt.Stream.{Bytes}
use taurus_cdt.Rope.{
  null, str, concat, Rope, out_of_bounds, of_chars, append_chars, append_literal, append_rope,
  append_node, at_node, at_str, at, c_str,
}
use taurus_cdt.Rope.Append.{Build, of, and_chars, and_rope, build, spelled, build-spelled}

abbrev pieces : Build
pieces = and_chars (and_rope (of (1 ∷ 2 ∷ [])) (and_chars (of (3 ∷ [])) (4 ∷ 5 ∷ []))) (6 ∷ [])

-- What a new buffer may hold.
abbrev noise : Bytes
noise = λ a. 99

abbrev two_parts : Rope
two_parts = record { root = concat (str (3 ∷ [])) (concat (str (1 ∷ 2 ∷ [])) null); size = 3 }

build-pieces :
    build pieces
    ≡ ok (record {
      root = concat (str (6 ∷ [])) (
          concat
            (concat (str (4 ∷ 5 ∷ [])) (concat (str (3 ∷ [])) null))
            (concat (str (1 ∷ 2 ∷ [])) null));
      size = 6;
    })
unfolding of_chars append_chars append_rope append_node
build-pieces = refl

-- A literal is appended with its terminating zero.
append_literal_zero :
    append_literal (of_chars (1 ∷ [])) (2 ∷ []) ≡ append_chars (of_chars (1 ∷ [])) (2 ∷ 0 ∷ [])
unfolding append_literal
append_literal_zero = refl

-- An index after the end is not refused: the last piece is read past its end.
at_past_the_end : at two_parts 3 ≡ err out_of_bounds
unfolding at at_node at_str
at_past_the_end = refl

build-spelled_example :
    (r : Rope) × (build pieces ≡ ok r)
    × (c_str noise r ≡ spelled pieces ++ 0 ∷ [])
    × ((i c : ℕ) → get_elem? (spelled pieces) i ≡ some c → at r i ≡ ok c)
build-spelled_example = build-spelled pieces noise (omega arith)
