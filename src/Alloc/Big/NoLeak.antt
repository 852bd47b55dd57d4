-- ===== src/Alloc/Big/NoLeak.antt =====
-- While one of the chunk slots is free, `add_to_bigchunk` of malloc/eosio/big_memory_alloc.hpp
-- loses no byte of the range that it is given.
use taurus_cdt.Prelude.{
  ℕ, zero, suc, ◌+◌, ◌^◌, ◌≤◌, ◌<◌, ◌≡◌, refl, sym, ap, ◌⊎◌, inl, inr, List, [], ◌∷◌, ◌∙◌, ltb,
  Bool-cases, get_or, get_elem?, set, All, arith, some, ltb-false→le,
}
use taurus_cdt.Alloc.Big.{
  BigChunk, no_chunk, Scan, merge_chunk, note_smallest, scan_chunks, add_to_bigchunk,
}
use taurus_cdt.Alloc.Big.Ownership.{inside, owned, Fits, owned-scan, start}
use native.Mathlib.Nat.{zero-add}

-- The smallest capacity is not above that of any chunk left behind.
scan_min :
    (i : ℕ) (cs : List BigChunk) (s : Scan) → (scan_chunks i cs s).0.smallest_cap ≤ s.smallest_cap
unfolding scan_chunks note_smallest merge_chunk
scan_min i [] s = omega arith
scan_min i (c ∷ cs) s =
    ground (arith, scan_min (suc i) cs (note_smallest i (merge_chunk c s).1 (merge_chunk c s).0))

scan_le :
    (i : ℕ) (cs : List BigChunk) (s : Scan) (k : ℕ) (d : BigChunk)
    → get_elem? (scan_chunks i cs s).1 k ≡ some d
    → (scan_chunks i cs s).0.smallest_cap ≤ d.capacity
unfolding scan_chunks note_smallest
scan_le i [] s k d e = cc
scan_le i (c ∷ cs) s zero d e =
    ground (arith, scan_min (suc i) cs (note_smallest i (merge_chunk c s).1 (merge_chunk c s).0))
scan_le i (c ∷ cs) s (suc k) d e =
    scan_le (suc i) cs (note_smallest i (merge_chunk c s).1 (merge_chunk c s).0) k d e

-- Where the smallest chunk stands.
abbrev Placed : ℕ → Scan → Scan → List BigChunk → Type 0
Placed i s t cs =
    ((t.smallest_idx ≡ s.smallest_idx) × (t.smallest_cap ≡ s.smallest_cap))
    ⊎ ((k : ℕ) × (d : BigChunk) × (t.smallest_idx ≡ i + k)
        × (get_elem? cs k ≡ some d)
        × (d.capacity ≡ t.smallest_cap))

note_placed :
    (i : ℕ) (c d : BigChunk) (s : Scan)
    → ((note_smallest i d (merge_chunk c s).0).smallest_idx ≡ s.smallest_idx)
        × ((note_smallest i d (merge_chunk c s).0).smallest_cap ≡ s.smallest_cap)
      ⊎ ((note_smallest i d (merge_chunk c s).0).smallest_idx ≡ i)
        × ((note_smallest i d (merge_chunk c s).0).smallest_cap ≡ d.capacity)
unfolding note_smallest merge_chunk
note_placed i c d s = ground arith

scan-Placed :
    (i : ℕ) (cs : List BigChunk) (s : Scan)
    → Placed i s (scan_chunks i cs s).0 (scan_chunks i cs s).1
unfolding scan_chunks
scan-Placed i [] s = inl (refl, refl)
scan-Placed i (c ∷ cs) s =
    let d = (merge_chunk c s).1 in
    let s' = note_smallest i d (merge_chunk c s).0 in
    elim (scan-Placed (suc i) cs s') [
      | inl (p, q) ↦ elim (note_placed i c d s) [
        | inl (p', q') ↦ inl (p ∙ p', q ∙ q')
        | inr (p', q') ↦ inr (0, d, omega (arith, p, p'), refl, sym (q ∙ q'))
      ]
      | inr (k, e, p, q, r) ↦ inr (suc k, e, omega (arith, p), q, r)
    ]

-- A free slot stays free.
merge_free : (c : BigChunk) (s : Scan) → c ≡ no_chunk → (merge_chunk c s).1 ≡ no_chunk
unfolding merge_chunk
merge_free c s e = rw e

scan_free :
    (i : ℕ) (cs : List BigChunk) (s : Scan) (k : ℕ)
    → get_elem? cs k ≡ some no_chunk
    → get_elem? (scan_chunks i cs s).1 k ≡ some no_chunk
unfolding scan_chunks
scan_free i [] s k e = cc
scan_free i (c ∷ cs) s zero e = ap some (merge_free c s (ground arith))
scan_free i (c ∷ cs) s (suc k) e =
    scan_free (suc i) cs (note_smallest i (merge_chunk c s).1 (merge_chunk c s).0) k e

inside_zero : (a p n : ℕ) → n ≡ 0 → inside a p n ≡ 0
unfolding inside
inside_zero a p n h = ground arith

owned-set_free :
    (a : ℕ) (cs : List BigChunk) (k : ℕ) (c d : BigChunk)
    → get_elem? cs k ≡ some d
    → d.capacity ≡ 0
    → owned a (set cs k c) ≡ owned a cs + inside a c.ptr c.capacity
unfolding owned
owned-set_free a [] k c d e z = cc
owned-set_free a (x ∷ cs) zero c d e z =
    let h : x.capacity ≡ 0 = ground arith in omega (arith, inside_zero a x.ptr x.capacity h)
owned-set_free a (x ∷ cs) (suc k) c d e z = omega (arith, owned-set_free a cs k c d e z)

merge_shrinks : (c : BigChunk) (s : Scan) → (merge_chunk c s).1.capacity ≤ c.capacity
unfolding merge_chunk
merge_shrinks c s = ground arith

elem_at {ℓ} :
    {A : Type ℓ} (xs : List A) (x : A) (i k : ℕ)
    → i ≡ k
    → get_elem? xs k ≡ some x
    → get_elem? xs i ≡ some x
elem_at xs x i k e h = rw e h

-- The slot that is replaced holds no byte.
replaced_free :
    (cs : List BigChunk) (s : Scan) (k : ℕ)
    → s.smallest_idx ≡ 0
    → s.smallest_cap ≡ (get_or cs 0 no_chunk).capacity
    → get_elem? cs k ≡ some no_chunk
    → (d : BigChunk) × (get_elem? (scan_chunks 0 cs s).1 (scan_chunks 0 cs s).0.smallest_idx
        ≡ some d)
      × (d.capacity ≡ 0)
unfolding scan_chunks
replaced_free [] s k i z e = cc
replaced_free (c ∷ cs) s k i z e =
    let low = scan_le 0 (c ∷ cs) s k no_chunk (scan_free 0 (c ∷ cs) s k e) in
    elim (scan-Placed 0 (c ∷ cs) s) [
      | inl (p, q) ↦ (
        (merge_chunk c s).1,
        elem_at (scan_chunks 0 (c ∷ cs) s).1 _ _ 0 (p ∙ i) refl,
        omega (arith, low, p, q, z, merge_shrinks c s),
      )
      | inr (j, d, p, q, r) ↦
          (d, elem_at (scan_chunks 0 (c ∷ cs) s).1 d _ j (p ∙ zero-add j) q, omega (arith, low, r))
    ]

-- While a slot is free, and no chunk nor the range given back passes the end of the address space,
-- `add_to_bigchunk` keeps every byte of the range: it has the owners that it had, and one
-- more if it lies in the range.
pub owned-add_free :
    (a p n : ℕ) (cs : List BigChunk) (k : ℕ)
    → All Fits cs
    → p + n < 2 ^ 32
    → get_elem? cs k ≡ some no_chunk
    → owned a (add_to_bigchunk p n cs) ≡ owned a cs + inside a p n
unfolding add_to_bigchunk
owned-add_free a p n cs k fits room e =
    let s = (scan_chunks 0 cs (start p n cs fits room)).0 in
    let cs' = (scan_chunks 0 cs (start p n cs fits room)).1 in
    let w = owned-scan a 0 cs (start p n cs fits room) fits room in
    let low =
      scan_le 0 cs (start p n cs fits room) k no_chunk
        (scan_free 0 cs (start p n cs fits room) k e) in
    let (d, g, z) = replaced_free cs (start p n cs fits room) k refl refl e in
    elim (Bool-cases (ltb s.smallest_cap s.capacity)) [
      | inl t ↦ rw t (
          omega (
            arith,
            w,
            owned-set_free a cs' s.smallest_idx
                (record { ptr = s.freed_mem; capacity = s.capacity }) d g z,
          ))
      | inr t ↦ rw t (
          omega (
            arith,
            w,
            inside_zero a s.freed_mem s.capacity (omega (arith, low, ltb-false→le _ _ t)),
          ))
    ]
