-- ===== src/Alloc/Big/Ownership.antt =====
-- Which freed chunk holds a byte: `alloc_from_bigchunk` and `add_to_bigchunk` of
-- malloc/eosio/big_memory_alloc.hpp, seen as a count of owners for each address.
use taurus_cdt.Prelude.{
  ℕ, zero, suc, ◌+◌, ◌^◌, ◌≤◌, ◌<◌, ◌≡◌, ◌≢◌, refl, inl, inr, List, [], ◌∷◌, ltb, leb, Bool-cases,
  if◌then◌else◌, ◌&&◌, get_or, set, All, arith,
}
use taurus_cdt.Alloc.Big.{
  BigChunk, no_chunk, Scan, alloc_from_bigchunk, merge_chunk, note_smallest, scan_chunks,
  add_to_bigchunk,
}

-- 1 if the address `a` lies in the `n` bytes from `p` on.
unfoldable pub inside : ℕ → ℕ → ℕ → ℕ
inside a p n = if leb p a && ltb a (p + n) then 1 else 0

-- How many chunks hold the address `a`.
unfoldable pub owned : ℕ → List BigChunk → ℕ
unfolding inside
owned a [] = 0
owned a (c ∷ cs) = inside a c.ptr c.capacity + owned a cs

-- A chunk ends within the 32-bit address space.
abbrev pub Fits : BigChunk → Type 0
Fits c = c.ptr + c.capacity < 2 ^ 32

pub alloc-Fits :
    (sz : ℕ) (cs : List BigChunk) → All Fits cs → All Fits (alloc_from_bigchunk sz cs).1
unfolding alloc_from_bigchunk
alloc-Fits sz [] h = tt
alloc-Fits sz (c ∷ cs) h = ground (arith, alloc-Fits sz cs h.1)

-- What `alloc_from_bigchunk` takes no longer belongs to a chunk, and nothing else changes hands.
pub owned-alloc :
    (a sz : ℕ) (cs : List BigChunk)
    → All Fits cs
    → (alloc_from_bigchunk sz cs).0 ≢ 0
    → owned a (alloc_from_bigchunk sz cs).1 + inside a (alloc_from_bigchunk sz cs).0 sz ≡ owned a cs
unfolding alloc_from_bigchunk owned
owned-alloc a sz [] h k = absurd (k refl)
owned-alloc a sz (c ∷ cs) h k = ground (arith, owned-alloc a sz cs h.1)

merge-Fits :
    (c : BigChunk) (s : Scan)
    → Fits c
    → s.freed_mem + s.capacity < 2 ^ 32
    → Fits (merge_chunk c s).1
      × ((merge_chunk c s).0.freed_mem + (merge_chunk c s).0.capacity < 2 ^ 32)
unfolding merge_chunk
merge-Fits c s h k = ground arith

owned-merge :
    (a : ℕ) (c : BigChunk) (s : Scan)
    → Fits c
    → s.freed_mem + s.capacity < 2 ^ 32
    → inside a (merge_chunk c s).1.ptr (merge_chunk c s).1.capacity
        + inside a (merge_chunk c s).0.freed_mem (merge_chunk c s).0.capacity
      ≡ inside a c.ptr c.capacity + inside a s.freed_mem s.capacity
unfolding merge_chunk inside
owned-merge a c s h k = ground arith

note-freed :
    (i : ℕ) (c : BigChunk) (s : Scan)
    → ((note_smallest i c s).freed_mem ≡ s.freed_mem)
      × ((note_smallest i c s).capacity ≡ s.capacity)
unfolding note_smallest
note-freed i c s = ground arith

-- The scan keeps every byte, in a chunk or in the range that is being added.
scan-Fits :
    (i : ℕ) (cs : List BigChunk) (s : Scan)
    → All Fits cs
    → s.freed_mem + s.capacity < 2 ^ 32
    → All Fits (scan_chunks i cs s).1
      × ((scan_chunks i cs s).0.freed_mem + (scan_chunks i cs s).0.capacity < 2 ^ 32)
unfolding scan_chunks
scan-Fits i [] s h k = (tt, k)
scan-Fits i (c ∷ cs) s h k =
    let m = merge-Fits c s h.0 k in
    let n = note-freed i (merge_chunk c s).1 (merge_chunk c s).0 in
    let r =
      scan-Fits (suc i) cs (note_smallest i (merge_chunk c s).1 (merge_chunk c s).0) h.1
        (omega (arith, m, n)) in
    ((m.0, r.0), r.1)

pub owned-scan :
    (a i : ℕ) (cs : List BigChunk) (s : Scan)
    → All Fits cs
    → s.freed_mem + s.capacity < 2 ^ 32
    → owned a (scan_chunks i cs s).1
        + inside a (scan_chunks i cs s).0.freed_mem (scan_chunks i cs s).0.capacity
      ≡ owned a cs + inside a s.freed_mem s.capacity
unfolding scan_chunks owned
owned-scan a i [] s h k = refl
owned-scan a i (c ∷ cs) s h k =
    let m = merge-Fits c s h.0 k in
    let n = note-freed i (merge_chunk c s).1 (merge_chunk c s).0 in
    let s' = note_smallest i (merge_chunk c s).1 (merge_chunk c s).0 in
    ground (arith, owned-merge a c s h.0 k, n, owned-scan a (suc i) cs s' h.1 (omega (arith, m, n)))

owned-set-le :
    (a i : ℕ) (cs : List BigChunk) (c : BigChunk)
    → owned a (set cs i c) ≤ owned a cs + inside a c.ptr c.capacity
unfolding owned
owned-set-le a i [] c = omega arith
owned-set-le a zero (d ∷ cs) c = omega arith
owned-set-le a (suc i) (d ∷ cs) c = omega (arith, owned-set-le a i cs c)

set-Fits :
    (i : ℕ) (cs : List BigChunk) (c : BigChunk) → All Fits cs → Fits c → All Fits (set cs i c)
set-Fits i [] c h k = tt
set-Fits zero (d ∷ cs) c h k = (k, h.1)
set-Fits (suc i) (d ∷ cs) c h k = (h.0, set-Fits i cs c h.1 k)

module _ (p n : ℕ) (cs : List BigChunk) (fits : All Fits cs) (room : p + n < 2 ^ 32) where
  abbrev pub start : Scan
  start = record {
    freed_mem = p;
    capacity = n;
    smallest_idx = 0;
    smallest_cap = (get_or cs 0 no_chunk).capacity;
  }

  pub add-Fits : All Fits (add_to_bigchunk p n cs)
  unfolding add_to_bigchunk
  add-Fits =
      let s = (scan_chunks 0 cs start).0 in
      let f = scan-Fits 0 cs start fits room in
      elim (Bool-cases (ltb s.smallest_cap s.capacity)) [
        | inl e ↦ rw e (set-Fits s.smallest_idx (scan_chunks 0 cs start).1 _ f.0 f.1)
        | inr e ↦ rw e f.0
      ]

  -- Adding a range gives no byte a second owner: a byte has at most the owners that it had, and
  -- one more if it lies in the range.
  pub owned-add-le : (a : ℕ) → owned a (add_to_bigchunk p n cs) ≤ owned a cs + inside a p n
  unfolding add_to_bigchunk
  owned-add-le a =
      let s = (scan_chunks 0 cs start).0 in
      let w = owned-scan a 0 cs start fits room in
      elim (Bool-cases (ltb s.smallest_cap s.capacity)) [
        | inl e ↦ rw e (
            omega (
              arith,
              w,
              owned-set-le a s.smallest_idx (scan_chunks 0 cs start).1
                  (record { ptr = s.freed_mem; capacity = s.capacity }),
            ))
        | inr e ↦ rw e (omega (arith, w))
      ]
