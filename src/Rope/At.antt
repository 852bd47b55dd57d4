-- ===== src/Rope/At.antt =====
-- `at` of libraries/eosiolib/core/eosio/rope.hpp: the character at an index.
use taurus_cdt.Prelude.{
  ℕ, zero, suc, ◌+◌, ◌-◌, ◌^◌, ◌<◌, ◌≤◌, ◌≡◌, refl, ap, ◌∙◌, sym, List, [], ◌∷◌, ◌++◌, Bool, true,
  false, none, some, ok, length, length-append, get_elem?, arith, sub32, ltb, Bool-cases, inl, inr,
  ltb→lt, ltb-false→le, le→leb, lt→leb-false,
}
use taurus_cdt.Rope.{Node, null, str, concat, Rope, Search, at_str, at_node, at}
use taurus_cdt.Rope.Walk.{text, IsSized}

abbrev pub is_str : Node → Bool
is_str null = false
is_str (str s) = true
is_str (concat l r) = false

-- No right part is a piece of text.
abbrev pub IsNode : Node → Type 0
IsNode null = Unit
IsNode (str s) = Unit
IsNode (concat l r) = IsNode l × IsNode r × (is_str r ≡ false)

get_elem?-left : (xs ys : List ℕ) (i : ℕ) → i < length xs → get_elem? (xs ++ ys) i ≡ get_elem? xs i
get_elem?-left [] ys i h = absurd (omega (arith, h))
get_elem?-left (x ∷ xs) ys zero h = refl
get_elem?-left (x ∷ xs) ys (suc i) h = get_elem?-left xs ys i (omega (arith, h))

get_elem?-right : (xs ys : List ℕ) (i : ℕ) → get_elem? (xs ++ ys) (length xs + i) ≡ get_elem? ys i
get_elem?-right [] ys i = let z : 0 + i ≡ i = omega arith in rw z refl
get_elem?-right (x ∷ xs) ys i =
    let z : suc (length xs) + i ≡ suc (length xs + i) = omega arith in
    rw z (get_elem?-right xs ys i)

none-some : {c : ℕ} → none ≡ some c → ⊥
none-some e = cc

get_elem?-within : (xs : List ℕ) (i c : ℕ) → get_elem? xs i ≡ some c → i < length xs
get_elem?-within [] i c e = absurd (none-some e)
get_elem?-within (x ∷ xs) zero c e = omega arith
get_elem?-within (x ∷ xs) (suc i) c e = omega (arith, get_elem?-within xs i c e)

abbrev searching : ℕ → ℕ → Search
searching ret o = record { ret = ret; index_so_far = o; stop = false }

abbrev stopped : ℕ → ℕ → Search
stopped ret o = record { ret = ret; index_so_far = o; stop = true }

-- A node whose characters are all after the index only moves on.
missed :
    (n : Node) (ret o index : ℕ)
    → length (text n) ≤ o
    → o < 2 ^ 32
    → index < o - length (text n)
    → at_node n index (searching ret o) ≡ ok (searching ret (o - length (text n)))
unfolding at_node text at_str
missed null ret o index h k m = let z : o - 0 ≡ o = omega arith in rw z refl
missed (str s) ret o index h k m =
    let e : sub32 o (length s) ≡ o - length s = omega (arith, h, k) in
    rw (e, lt→leb-false (o - length s) index m) refl
missed (concat l r) ret o index h k m =
    let n = length-append (text r) (text l) in
    let z : o - length (text l) - length (text r) ≡ o - length (text r ++ text l) =
      omega (arith, n) in
    rw (missed l ret o index (omega (arith, n, h)) k (omega (arith, n, m, h))) (
      missed r ret (o - length (text l)) index (omega (arith, n, h)) (omega (arith, k))
        (omega (arith, z, m))
      ∙ ap (λ o. ok (searching ret o)) z)

record Found (n : Node) (ret o index c : ℕ) : Type 0 where
  so_far : ℕ
  stops : at_node n index (searching ret o) ≡ ok (stopped c so_far)

-- The right part of a node keeps what the left one found.
keeps :
    (r : Node) (index c o : ℕ) → is_str r ≡ false → at_node r index (stopped c o) ≡ ok (stopped c o)
unfolding at_node
keeps null index c o e = refl
keeps (str s) index c o e = cc
keeps (concat l r) index c o e = refl

-- A node that holds the character base the index, with its text from the place `base` on, finds it.
found :
    (n : Node) (ret o index base c : ℕ)
    → IsNode n
    → base + length (text n) ≡ o
    → o < 2 ^ 32
    → base ≤ index
    → get_elem? (text n) (index - base) ≡ some c
    → Found n ret o index c
unfolding at_node text at_str
found null ret o index base c w h k m e = absurd (none-some e)
found (str s) ret o index base c w h k m e = record {
  so_far = base;
  stops =
      let z : sub32 o (length s) ≡ base = omega (arith, h, k) in
      let i : sub32 index base ≡ index - base =
        omega (arith, h, k, m, get_elem?-within s (index - base) c e) in
      rw (z, le→leb base index m, i, e) (ap (λ b. ok (stopped c b)) z);
}
found (concat l r) ret o index base c (wl, wr, p) h k m e =
    let n = length-append (text r) (text l) in
    elim (Bool-cases (ltb (index - base) (length (text r)))) [
      | inl q ↦
          (let q' = ltb→lt _ _ q in
            let f =
              found r ret (o - length (text l)) index base c wr (omega (arith, n, h))
                (omega (arith, k)) m
                (sym (get_elem?-left (text r) (text l) (index - base) q') ∙ e) in
            record {
              so_far = f.so_far;
              stops =
                  rw (missed l ret o index (omega (arith, n, h)) k (omega (arith, n, h, q')))
                    f.stops;
            })
      | inr q ↦
          (let q' = ltb-false→le _ _ q in
            let b = base + length (text r) in
            let i : index - base ≡ length (text r) + (index - b) = omega (arith, q') in
            let f = found l ret o index b c wl (omega (arith, n, h)) k (omega (arith, q', m)) (
              sym (get_elem?-right (text r) (text l) (index - b))
              ∙ (ap (get_elem? (text r ++ text l)) (sym i) ∙ e)) in
            record { so_far = f.so_far; stops = rw f.stops (keeps r index c f.so_far p) })
    ]

-- `at` returns the character of the rope's text at the index, where the text has one, when the size is that of
-- the text, below 2 ^ 32, and no right part is a piece.
pub at-text :
    (r : Rope) (index c : ℕ)
    → IsSized r
    → IsNode r.root
    → get_elem? (text r.root) index ≡ some c
    → at r index ≡ ok c
unfolding at
at-text r index c h w e =
    let i : index - 0 ≡ index = omega arith in
    let f =
      found r.root 0 r.size index 0 c w (omega (arith, h.sized)) h.small (omega arith) (rw i e) in
    rw f.stops refl
