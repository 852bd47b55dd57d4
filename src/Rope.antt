-- ===== src/Rope.antt =====
-- `rope` of libraries/eosiolib/core/eosio/rope.hpp: a text as a tree of pieces. A pointer to a node is the node,
-- and `null` the null pointer: no node changes after it was linked but for its fields `temp` and
-- `temp_left`, which only a walk uses. The member `last` is never read.
pub mod Walk
pub mod At
pub mod Append
mod Tests
use taurus_cdt.Prelude.{
  ℕ, zero, suc, ◌+◌, List, [], ◌∷◌, ◌++◌, Bool, true, false, not, ◌&&◌, leb, if◌then◌else◌, Option,
  none, some, Result, ok, err, ◌>>=◌, add32, sub32, length, get_elem?,
}
use taurus_cdt.Stream.{Bytes, copy_in, copy_out}

-- `rope_node`
pub data Node : Type 0 where
  null : Node
  str : List ℕ → Node
  concat : Node → Node → Node

abbrev pub is_null : Node → Bool
is_null null = true
is_null (str s) = false
is_null (concat l r) = false

pub record Rope : Type 0 where
  pub root : Node
  pub size : ℕ

pub data Failure : Type 0 where
  only_concat_nodes out_of_bounds : Failure

-- The way from a node up to the root, which the fields `temp` and `temp_left` hold.
pub record Frame : Type 0 where
  pub left : Node
  pub right : Node
  pub temp_left : Bool

-- `r` and `going_down`, with the way up.
pub data Place : Type 0 where
  down : Node → List Frame → Place
  up : List Frame → Place

pub record Walker : Type 0 where
  pub place : Place
  pub buffer : Bytes
  pub off : ℕ

-- Where the walk goes from a node of two parts.
unfoldable pub enter : Node → Node → List Frame → Place
enter l r path =
    if not (is_null l)
    then down l (record { left = l; right = r; temp_left = true } ∷ path)
    else (if not (is_null r)
        then down r (record { left = l; right = r; temp_left = false } ∷ path)
        else up path)

-- Where it goes when it comes back to one.
unfoldable pub leave : Frame → List Frame → Place
leave f path =
    if f.temp_left && not (is_null f.right)
    then down f.right (record f { temp_left = false } ∷ path)
    else up path

-- A round of the loop of `c_str`.
unfoldable pub step : Walker → Walker
unfolding enter leave copy_in
step w = elim w.place [
  | up path ↦ (elim path [ [] ↦ w | f ∷ rest ↦ record w { place = leave f rest } ])
  | down n path ↦ (elim n [
    | null ↦ record w { place = up [] }
    | concat l r ↦ record w { place = enter l r path }
    | str s ↦ record {
      place = up path;
      buffer = copy_in w.buffer (sub32 w.off (length s)) s;
      off = sub32 w.off (length s);
    }
  ])
]

unfoldable pub walk : ℕ → Walker → Walker
unfolding step
walk zero w = w
walk (suc fuel) w = walk fuel (step w)

-- As many rounds as the loop needs at most: one down to each node, and two back to it.
unfoldable pub rounds : Node → ℕ
rounds null = 0
rounds (str s) = 1
rounds (concat l r) = 3 + rounds l + rounds r

-- `c_str()`, into a buffer of any content, with the zero at the end.
unfoldable pub c_str : Bytes → Rope → List ℕ
unfolding walk rounds copy_out
c_str m r =
    let w = walk (rounds r.root) (record { place = down r.root []; buffer = m; off = r.size }) in
    copy_out w.buffer 0 r.size ++ 0 ∷ []

-- The constructors, of the characters before the terminating zero.
unfoldable pub of_chars : List ℕ → Rope
of_chars s = record { root = concat (str s) null; size = length s }

-- The private `append`.
unfoldable pub append_node : Rope → Node → Bool → Result Failure Rope
append_node r null use_left = err only_concat_nodes
append_node r (str s) use_left = err only_concat_nodes
append_node r (concat a b) use_left =
    ok (record r { root = if use_left then concat (concat a b) r.root else concat a r.root })

unfoldable pub append_chars : Rope → List ℕ → Result Failure Rope
unfolding append_node
append_chars r s = do
  r' ← append_node r (concat (str s) null) false
  ok (record r' { size = add32 r'.size (length s) })

-- `append( const char (&)[N] )`, where the N characters of a literal end with a zero.
unfoldable pub append_literal : Rope → List ℕ → Result Failure Rope
unfolding append_chars
append_literal r s = append_chars r (s ++ 0 ∷ [])

unfoldable pub append_rope : Rope → Rope → Result Failure Rope
unfolding append_node
append_rope r s = do r' ← append_node r s.root true; ok (record r' { size = add32 r'.size s.size })

-- The variables of the recursion of `at`.
pub record Search : Type 0 where
  pub ret : ℕ
  pub index_so_far : ℕ
  pub stop : Bool

-- The character of a piece, where it may be.
unfoldable pub at_str : List ℕ → ℕ → Search → Result Failure Search
at_str s index st =
    let so_far = sub32 st.index_so_far (length s) in
    if leb so_far index
    then (elim (get_elem? s (sub32 index so_far)) [
      | none ↦ err out_of_bounds
      | some c ↦ ok (record { ret = c; index_so_far = so_far; stop = true })
    ])
    else ok (record st { index_so_far = so_far })

unfoldable pub at_node : Node → ℕ → Search → Result Failure Search
unfolding at_str
at_node null index st = ok st
at_node (str s) index st = at_str s index st
at_node (concat l r) index st =
    let found = at_node l index st >>= λ st'. at_node r index st' in
    if not st.stop then found else ok st

-- `at( index )`
unfoldable pub at : Rope → ℕ → Result Failure ℕ
unfolding at_node
at r index =
    at_node r.root index (record { ret = 0; index_so_far = r.size; stop = false }) >>= λ st.
    ok st.ret

-- `length()`
unfoldable pub rope_length : Rope → ℕ
rope_length r = r.size
