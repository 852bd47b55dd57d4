-- ===== src/Rope/Append.antt =====
-- `append` of libraries/eosiolib/core/eosio/rope.hpp, and what the appended rope reads.
use taurus_cdt.Prelude.{
  ℕ, ◌+◌, ◌^◌, ◌<◌, ◌≡◌, refl, sym, subst, List, [], ◌∷◌, ◌++◌, Bool, true, false, some, Result, ok,
  ◌>>=◌, add32, length, length-append, get_elem?, arith,
}
use taurus_cdt.Stream.{Bytes}
use taurus_cdt.Rope.{
  Node, null, str, concat, Rope, Failure, of_chars, append_node, append_chars, append_rope, at,
  c_str,
}
use taurus_cdt.Rope.Walk.{text, IsSized, c_str-text}
use taurus_cdt.Rope.At.{is_str, IsNode, at-text}

abbrev pub is_concat : Node → Bool
is_concat null = false
is_concat (str s) = false
is_concat (concat l r) = true

-- What every operation keeps: the size is the text's, the root is a node of two parts, and no right part is a
-- piece.
pub record IsRope (r : Rope) : Type 0 where
  pub sizes : IsSized r
  pub rooted : is_concat r.root ≡ true
  pub nodes : IsNode r.root

-- A rope that reads a text.
pub record Reads (r : Rope) (s : List ℕ) : Type 0 where
  pub well : IsRope r
  pub reads : text r.root ≡ s

pub of_chars-Reads : (s : List ℕ) → length s < 2 ^ 32 → Reads (of_chars s) s
unfolding of_chars text
of_chars-Reads s h = record {
  well = record {
    sizes = record { sized = refl; small = h };
    rooted = refl;
    nodes = (tt, tt, refl);
  };
  reads = refl;
}

concat_not_str : (n : Node) → is_concat n ≡ true → is_str n ≡ false
concat_not_str null e = refl
concat_not_str (str s) e = cc
concat_not_str (concat l r) e = refl

-- A piece appended.
abbrev with_chars : Rope → List ℕ → Rope
with_chars r s = record { root = concat (str s) r.root; size = add32 r.size (length s) }

-- Appending characters to a rope succeeds and the rope reads its old text followed by them, and is still well
-- formed, when the sizes stay below 2 ^ 32.
pub append_chars-Reads :
    (r : Rope) (s : List ℕ)
    → IsRope r
    → r.size + length s < 2 ^ 32
    → (r' : Rope) × (append_chars r s ≡ ok r') × Reads r' (text r.root ++ s)
unfolding append_chars append_node text
append_chars-Reads r s w h =
    let e : add32 r.size (length s) ≡ r.size + length s = omega (arith, h) in
    let n = length-append (text r.root) s in
    (
      with_chars r s,
      refl,
      record {
        well = record {
          sizes = record {
            sized = omega (arith, e, n, w.sizes.sized);
            small = omega (arith, e, h);
          };
          rooted = refl;
          nodes = (tt, w.nodes, concat_not_str r.root w.rooted);
        };
        reads = refl;
      },
    )

append_root :
    (r : Rope) (n : Node)
    → is_concat n ≡ true
    → append_node r n true ≡ ok (record r { root = concat n r.root })
unfolding append_node
append_root r null e = cc
append_root r (str s) e = cc
append_root r (concat a b) e = refl

append_concat :
    (r s : Rope)
    → is_concat s.root ≡ true
    → append_rope r s ≡ ok (record { root = concat s.root r.root; size = add32 r.size s.size })
unfolding append_rope
append_concat r s e = rw (append_root r s.root e) refl

-- Appending a rope to a rope succeeds and the result reads both texts, and is still well formed, when the sizes
-- stay below 2 ^ 32.
pub append_rope-Reads :
    (r s : Rope)
    → IsRope r
    → IsRope s
    → r.size + s.size < 2 ^ 32
    → (r' : Rope) × (append_rope r s ≡ ok r') × Reads r' (text r.root ++ text s.root)
unfolding text
append_rope-Reads r s w v h =
    let e : add32 r.size s.size ≡ r.size + s.size = omega (arith, h) in
    let n = length-append (text r.root) (text s.root) in
    (
      record { root = concat s.root r.root; size = add32 r.size s.size },
      append_concat r s v.rooted,
      record {
        well = record {
          sizes = record {
            sized = omega (arith, e, n, w.sizes.sized, v.sizes.sized);
            small = omega (arith, e, h);
          };
          rooted = refl;
          nodes = (v.nodes, w.nodes, concat_not_str r.root w.rooted);
        };
        reads = refl;
      },
    )

-- The ways to make a rope: of characters, by appending characters, by appending a rope.
pub data Build : Type 0 where
  of : List ℕ → Build
  and_chars : Build → List ℕ → Build
  and_rope : Build → Build → Build

abbrev pub build : Build → Result Failure Rope
build (of s) = ok (of_chars s)
build (and_chars b s) = build b >>= λ r. append_chars r s
build (and_rope b c) = build b >>= λ r. build c >>= λ s. append_rope r s

-- What it should read.
abbrev pub spelled : Build → List ℕ
spelled (of s) = s
spelled (and_chars b s) = spelled b ++ s
spelled (and_rope b c) = spelled b ++ spelled c

Reads-size : (r : Rope) (s : List ℕ) → Reads r s → r.size ≡ length s
Reads-size r s h = subst (λ t. r.size ≡ length t) h.reads h.well.sizes.sized

build-Reads :
    (b : Build) → length (spelled b) < 2 ^ 32 → (r : Rope) × (build b ≡ ok r) × Reads r (spelled b)
build-Reads (of s) h = (of_chars s, refl, of_chars-Reads s h)
build-Reads (and_chars b s) h =
    let n = length-append (spelled b) s in
    let (r, e, w) = build-Reads b (omega (arith, n, h)) in
    let z = Reads-size r (spelled b) w in
    let (r', e', w') = append_chars-Reads r s w.well (omega (arith, n, h, z)) in
    (r', rw e e', subst (λ t. Reads r' (t ++ s)) w.reads w')
build-Reads (and_rope b c) h =
    let n = length-append (spelled b) (spelled c) in
    let (r, e, w) = build-Reads b (omega (arith, n, h)) in
    let (s, f, v) = build-Reads c (omega (arith, n, h)) in
    let z = Reads-size r (spelled b) w in
    let z' = Reads-size s (spelled c) v in
    let (r', e', w') = append_rope-Reads r s w.well v.well (omega (arith, n, h, z, z')) in
    (r', rw (e, f) e', rw (w.reads, v.reads) at w')

-- A rope made in any way by `rope( s )` and `append`, of less than 2 ^ 32 characters in all, is made without a
-- failure, `c_str` returns all its pieces in the order they were appended and a zero, and `at` returns the
-- character of them at each index.
pub build-spelled :
    (b : Build) (m : Bytes)
    → length (spelled b) < 2 ^ 32
    → (r : Rope) × (build b ≡ ok r)
      × (c_str m r ≡ spelled b ++ 0 ∷ [])
      × ((i c : ℕ) → get_elem? (spelled b) i ≡ some c → at r i ≡ ok c)
build-spelled b m h =
    let (r, e, w) = build-Reads b h in
    (
      r,
      e,
      rw (sym w.reads) (c_str-text m r w.well.sizes),
      λ i c g. at-text r i c w.well.sizes w.well.nodes (rw w.reads g),
    )
