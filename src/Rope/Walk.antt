-- ===== src/Rope/Walk.antt =====
-- `c_str` of libraries/eosiolib/core/eosio/rope.hpp: the walk over the tree, and the text that it writes.
use taurus_cdt.Prelude.{
  ℕ, zero, suc, ◌+◌, ◌-◌, ◌^◌, ◌<◌, ◌≤◌, ◌≡◌, ◌≢◌, refl, sym, ap, ◌∙◌, subst, List, [], ◌∷◌, ◌++◌,
  true, false, ◌==◌, if◌then◌else◌, sub32, length, length-append, arith, Bool-cases, inl, inr,
  ne→==-false, ==_iff,
}
use mathlib.Core.Path.{fun_ext}
use mathlib.Core.List.{append-nil}
use taurus_cdt.Stream.{Bytes, copy_in, copy_out}
use taurus_cdt.Stream.Packing.{copy_in-append, copy_out-copy_in}
use taurus_cdt.Rope.{
  Node, null, str, concat, is_null, Rope, Frame, Place, down, up, Walker, enter, leave, step, walk,
  rounds, c_str,
}

-- The text of a tree: the right part stands before the left one.
unfoldable pub text : Node → List ℕ
text null = []
text (str s) = s
text (concat l r) = text r ++ text l

abbrev write : Bytes → ℕ → ℕ → Bytes
write m a c = λ b. if a == b then c else m b

write-swap : (m : Bytes) (a b c d : ℕ) → a ≢ b → write (write m a c) b d ≡ write (write m b d) a c
write-swap m a b c d n = fun_ext λ i. elim (Bool-cases (a == i)) [
  | inr p ↦ rw (p) refl
  | inl p ↦
      (let e : a ≡ i = (==_iff a i).0 p in
        let q = ne→==-false b i (λ f. n (e ∙ sym f)) in rw (p, q) refl)
]

copy_in-late :
    (m : Bytes) (a c d : ℕ) (ys : List ℕ)
    → a < d
    → copy_in (write m a c) d ys ≡ write (copy_in m d ys) a c
unfolding copy_in
copy_in-late m a c d [] h = refl
copy_in-late m a c d (y ∷ ys) h =
    ap (λ n. copy_in n (d + 1) ys) (write-swap m a d c y (λ e. omega (arith, e, h)))
    ∙ copy_in-late (write m d y) a c (d + 1) ys (omega (arith, h))

-- Two pieces that do not overlap may be written in either order.
copy_in-swap :
    (m : Bytes) (a d : ℕ) (xs ys : List ℕ)
    → a + length xs ≤ d
    → copy_in (copy_in m d ys) a xs ≡ copy_in (copy_in m a xs) d ys
unfolding copy_in
copy_in-swap m a d [] ys h = refl
copy_in-swap m a d (x ∷ xs) ys h =
    ap (λ n. copy_in n (a + 1) xs) (sym (copy_in-late m a x d ys (omega (arith, h))))
    ∙ copy_in-swap (write m a x) (a + 1) d xs ys (omega (arith, h))

-- The walk came to the end of a tree: its text stands before the place where the last one began.
abbrev Written : Bytes → ℕ → Node → List Frame → Walker
Written m o n path = record {
  place = up path;
  buffer = copy_in m (o - length (text n)) (text n);
  off = o - length (text n);
}

abbrev at_node : Bytes → ℕ → Node → List Frame → Walker
at_node m o n path = record { place = down n path; buffer = m; off = o }

-- Some number of rounds, within a bound, takes one state to another.
record Takes (bound : ℕ) (w v : Walker) : Type 0 where
  count : ℕ
  within : count ≤ bound
  rest : (k : ℕ) → walk (count + k) w ≡ walk k v

Takes-trans : (a b : ℕ) (u v w : Walker) → Takes a u v → Takes b v w → Takes (a + b) u w
Takes-trans a b u v w p q = record {
  count = p.count + q.count;
  within = omega (arith, p.within, q.within);
  rest = λ k.
      let e : p.count + q.count + k ≡ p.count + (q.count + k) = omega arith in
      rw e (p.rest (q.count + k) ∙ q.rest k);
}

Takes-step : (w v : Walker) → step w ≡ v → Takes 1 w v
unfolding walk
Takes-step w v e = record {
  count = 1;
  within = omega arith;
  rest = λ k. let z : 1 + k ≡ suc k = omega arith in rw z (ap (walk k) e);
}

Takes-none : (b : ℕ) (w v : Walker) → w ≡ v → Takes b w v
Takes-none b w v e = record {
  count = 0;
  within = omega arith;
  rest = λ k. let z : 0 + k ≡ k = omega arith in rw z (ap (walk k) e);
}

Takes-more : (a b : ℕ) (w v : Walker) → a ≤ b → Takes a w v → Takes b w v
Takes-more a b w v h p = record {
  count = p.count;
  within = omega (arith, h, p.within);
  rest = p.rest;
}

abbrev come_from : Node → Node → Frame
come_from l r = record { left = l; right = r; temp_left = true }

abbrev placed : Place → Bytes → ℕ → Walker
placed p m o = record { place = p; buffer = m; off = o }

-- What a walk of a node shows.
Walks : Node → Type 0
Walks n =
    (m : Bytes) (o : ℕ) (path : List Frame)
    → length (text n) ≤ o
    → o < 2 ^ 32
    → Takes (rounds n) (at_node m o n path) (Written m o n path)

-- From the left part on.
abbrev After : Node → Node → Type 0
After l r =
    (m : Bytes) (o : ℕ) (path : List Frame)
    → length (text r) ≤ o
    → o < 2 ^ 32
    → Takes (rounds r + 1) (placed (leave (come_from l r) path) m o) (Written m o r path)

none_left : (m : Bytes) (o : ℕ) (path : List Frame) → placed (up path) m o ≡ Written m o null path
unfolding text copy_in
none_left m o path = let z : o - 0 ≡ o = omega arith in rw z refl

after_node : (l r : Node) → is_null r ≡ false → Walks r → After l r
unfolding Walks leave step
after_node l r e w m o path h s =
    let f : Frame = record { left = l; right = r; temp_left = false } in
    let start : placed (leave (come_from l r) path) m o ≡ at_node m o r (f ∷ path) = rw e refl in
    rw start (
      Takes-trans (rounds r) 1 (at_node m o r (f ∷ path)) (Written m o r (f ∷ path))
        (Written m o r path) (w m o (f ∷ path) h s)
        (Takes-step (Written m o r (f ∷ path)) (Written m o r path) refl))

after_null : (l : Node) → After l null
unfolding leave
after_null l m o path h s =
    Takes-none _ (placed (up path) m o) (Written m o null path) (none_left m o path)

-- The two parts, written one after the other, are the text of both.
both_written :
    (m : Bytes) (o : ℕ) (l r : Node) (path : List Frame)
    → length (text (concat l r)) ≤ o
    → Written (copy_in m (o - length (text l)) (text l)) (o - length (text l)) r path
      ≡ Written m o (concat l r) path
unfolding text
both_written m o l r path h =
    let n = length-append (text r) (text l) in
    let a = o - length (text l) - length (text r) in
    let e : a ≡ o - length (text r ++ text l) = omega (arith, n) in
    let e' : o - length (text l) ≡ a + length (text r) = omega (arith, n, h) in
    let b : copy_in (copy_in m (o - length (text l)) (text l)) a (text r)
        ≡ copy_in m a (text r ++ text l) =
      copy_in-swap m a (o - length (text l)) (text r) (text l) (omega (arith, n, h))
      ∙ (ap (λ d. copy_in (copy_in m a (text r)) d (text l)) e'
          ∙ copy_in-append m a (text r) (text l)) in
    ap (λ b. placed (up path) b a) b
    ∙ ap (λ a. placed (up path) (copy_in m a (text r ++ text l)) a) e

walk_str : (s : List ℕ) → Walks (str s)
unfolding Walks text step rounds
walk_str s m o path h k =
    let e : sub32 o (length s) ≡ o - length s = omega (arith, h, k) in
    Takes-step (at_node m o (str s) path) (Written m o (str s) path) (rw e refl)

walk_right : (r : Node) → After null r → Walks (concat null r)
unfolding Walks text step rounds enter leave copy_in
walk_right r a m o path h k =
    let e : text r ++ [] ≡ text r = append-nil (text r) in
    let h' : length (text r) ≤ o = subst (λ t. length t ≤ o) e h in
    let q : Written m o r path ≡ Written m o (concat null r) path = rw e refl in
    Takes-more (1 + (rounds r + 1)) (3 + 0 + rounds r) _ _ (omega arith) (
      Takes-trans 1 (rounds r + 1) _ (placed (leave (come_from null r) path) m o) _
        (Takes-step (at_node m o (concat null r) path) (placed (leave (come_from null r) path) m o)
          refl)
        (subst (Takes (rounds r + 1) (placed (leave (come_from null r) path) m o)) q
          (a m o path h' k)))

walk_both : (l r : Node) → is_null l ≡ false → Walks l → After l r → Walks (concat l r)
unfolding Walks text step rounds enter
walk_both l r e w a m o path h k =
    let n = length-append (text r) (text l) in
    let f = come_from l r in
    let m₁ = copy_in m (o - length (text l)) (text l) in
    let o₁ = o - length (text l) in
    let second : Takes (rounds r + 1) (placed (leave f path) m₁ o₁)
        (Written m o (concat l r) path) =
      subst (Takes (rounds r + 1) (placed (leave f path) m₁ o₁)) (both_written m o l r path h)
        (a m₁ o₁ path (omega (arith, n, h)) (omega (arith, k))) in
    let first : Takes (1 + (rounds l + 1)) (at_node m o (concat l r) path)
        (placed (leave f path) m₁ o₁) =
      Takes-trans 1 (rounds l + 1) _ (at_node m o l (f ∷ path)) _
        (Takes-step _ (at_node m o l (f ∷ path)) (rw e refl))
        (Takes-trans (rounds l) 1 _ (Written m o l (f ∷ path)) _
          (w m o (f ∷ path) (omega (arith, n, h)) k)
          (Takes-step (Written m o l (f ∷ path)) (placed (leave f path) m₁ o₁) refl)) in
    Takes-more (1 + (rounds l + 1) + (rounds r + 1)) (3 + rounds l + rounds r) _ _ (omega arith)
      (Takes-trans (1 + (rounds l + 1)) (rounds r + 1) _ _ _ first second)

true-false : true ≡ false → ⊥
true-false e = cc

after : (l r : Node) → (is_null r ≡ false → Walks r) → After l r
after l null w = after_null l
after l (str s) w = after_node l (str s) refl (w refl)
after l (concat a b) w = after_node l (concat a b) refl (w refl)

walk_concat : (l r : Node) → (is_null l ≡ false → Walks l) → After l r → Walks (concat l r)
walk_concat null r w a = walk_right r a
walk_concat (str s) r w a = walk_both (str s) r refl (w refl) a
walk_concat (concat b c) r w a = walk_both (concat b c) r refl (w refl) a

-- The walk of any node but null.
walks : (n : Node) → is_null n ≡ false → Walks n
walks null e = absurd (true-false e)
walks (str s) e = walk_str s
walks (concat l r) e = walk_concat l r (walks l) (after l r (walks r))

-- A walk that came back to the root stays there.
walk_ended : (k : ℕ) (m : Bytes) (o : ℕ) → walk k (placed (up []) m o) ≡ placed (up []) m o
unfolding walk step
walk_ended zero m o = refl
walk_ended (suc k) m o = walk_ended k m o

-- The rope's size is that of its text, in a word.
pub record IsSized (r : Rope) : Type 0 where
  pub sized : r.size ≡ length (text r.root)
  pub small : r.size < 2 ^ 32

from_root :
    (m : Bytes) (n : Node)
    → Walks n
    → length (text n) < 2 ^ 32
    → (walk (rounds n) (at_node m (length (text n)) n [])).buffer ≡ copy_in m 0 (text n)
unfolding Walks
from_root m n w h =
    let t = w m (length (text n)) [] (omega arith) h in
    let z : length (text n) - length (text n) ≡ 0 = omega arith in
    let c : rounds n ≡ t.count + (rounds n - t.count) = omega (arith, t.within) in
    let b = copy_in m (length (text n) - length (text n)) (text n) in
    ap (λ k. (walk k (at_node m (length (text n)) n [])).buffer) c
    ∙ ap (λ v. v.buffer)
        (t.rest (rounds n - t.count)
          ∙ walk_ended (rounds n - t.count) b (length (text n) - length (text n)))
    ∙ ap (λ a. copy_in m a (text n)) z

walk_whole :
    (m : Bytes) (n : Node)
    → length (text n) < 2 ^ 32
    → (walk (rounds n) (at_node m (length (text n)) n [])).buffer ≡ copy_in m 0 (text n)
unfolding rounds walk text copy_in
walk_whole m null h = refl
walk_whole m (str s) h = from_root m (str s) (walks (str s) refl) h
walk_whole m (concat l r) h = from_root m (concat l r) (walks (concat l r) refl) h

-- `c_str` returns the text of the tree with a zero at its end, whatever the new buffer holds, when the rope's size
-- is the length of the text and below 2 ^ 32: the walk over the tree is over in the rounds it has.
pub c_str-text : (m : Bytes) (r : Rope) → IsSized r → c_str m r ≡ text r.root ++ 0 ∷ []
unfolding c_str text copy_out
c_str-text m r h =
    let small : length (text r.root) < 2 ^ 32 = subst (λ n. n < 2 ^ 32) h.sized h.small in
    let w = walk_whole m r.root small in rw (h.sized, w, copy_out-copy_in m 0 (text r.root)) refl
