-- ===== src/Heap/Merging.antt =====
-- `merge_contiguous` of libraries/eosiolib/malloc.cpp: its loop ends, and what it leaves.
use taurus_cdt.Prelude.{
  ℕ, zero, suc, ◌+◌, ◌%◌, ◌^◌, ◌≤◌, ◌≡◌, refl, Bool, true, false, not, ◌&&◌, ltb, leb,
  if◌then◌else◌, add32, arith, ltb→lt,
}
use taurus_cdt.Alloc.Store.{Mem}
use taurus_cdt.Heap.{merge_loop}

merge_loop-done :
    (fuel : ℕ) (m : Mem) (ptr end needed possible : ℕ)
    → needed ≤ possible
    → merge_loop fuel m ptr end needed possible ≡ possible
unfolding merge_loop
merge_loop-done zero m ptr end needed possible h = refl
merge_loop-done (suc fuel) m ptr end needed possible h =
    let t : ltb possible needed ≡ false = ground arith in rw t refl

if-same {ℓ} :
    {A : Type ℓ} (b : Bool) (x y z : A)
    → (b ≡ true → x ≡ y)
    → (if b then x else z) ≡ (if b then y else z)
if-same true x y z h = h refl
if-same false x y z h = refl

-- For a size of at most 1 GB, the loop of `merge_contiguous` has ended after as many rounds as the size
-- that is needed, less what the buffer has: further rounds change nothing.
pub merge_loop-ends :
    (fuel more : ℕ) (m : Mem) (ptr end needed possible : ℕ)
    → fuel ≤ more
    → needed ≤ 2 ^ 30
    → needed ≤ possible + fuel
    → merge_loop more m ptr end needed possible ≡ merge_loop fuel m ptr end needed possible
unfolding merge_loop
merge_loop-ends zero more m ptr end needed possible l s h =
    merge_loop-done more m ptr end needed possible (omega (arith, h))
merge_loop-ends (suc fuel) zero m ptr end needed possible l s h = absurd (omega (arith, l))
merge_loop-ends (suc fuel) (suc more) m ptr end needed possible l s h =
    let x = m (add32 ptr possible) in
    let next = add32 possible (add32 (x % 2 ^ 31) 4) in
    if-same (ltb possible needed && ltb (add32 ptr possible) end && not (leb (2 ^ 31) x))
      (merge_loop more m ptr end needed next) (merge_loop fuel m ptr end needed next) possible
      (λ e.
        let c = ltb→lt possible needed (ground arith) in
        let n : needed ≤ next + fuel = omega (arith, c, s, h) in
        merge_loop-ends fuel more m ptr end needed next (omega (arith, l)) s n)
