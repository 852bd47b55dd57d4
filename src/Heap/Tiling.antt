-- ===== src/Heap/Tiling.antt =====
-- A heap of libraries/eosiolib/malloc.cpp is tiled by its buffers: `memory::malloc` adds one at the end
-- and `memory::free` marks the one that it is given.
use taurus_cdt.Prelude.{
  ℕ, ◌+◌, ◌-◌, ◌%◌, ◌^◌, ◌<◌, ◌≤◌, ◌≡◌, ◌≢◌, refl, sym, ap, ◌∙◌, subst, List, [], ◌∷◌, ◌++◌, Bool,
  true, false, ltb, leb, if◌then◌else◌, Option, none, some, add32, sub32, arith, Bool-cases, inl,
  inr, ltb→lt, ltb-false→le,
}
use taurus_cdt.Alloc.Store.{Mem, store, store_self, store_ne}
use taurus_cdt.Heap.{
  Heap, marker, is_alloc, set_size, with_state, mark_alloc, mark_free, heap_malloc, heap_free,
  adjust_to_mem_block,
}

-- The markers from address `p` to address `e` are those of the buffers in the list: their sizes, and
-- whether they are in use.
abbrev pub Tiled : Mem → ℕ → ℕ → List (ℕ × Bool) → Type 0
Tiled m p e [] = p ≡ e
Tiled m p e ((n, used) ∷ bs) =
    (m p ≡ n + (if used then 2 ^ 31 else 0)) × ((n < 2 ^ 31) × Tiled m (p + 4 + n) e bs)

abbrev pub span : List (ℕ × Bool) → ℕ
span [] = 0
span ((n, used) ∷ bs) = 4 + n + span bs

Tiled-le : (m : Mem) (p e : ℕ) (bs : List (ℕ × Bool)) → Tiled m p e bs → p ≤ e
Tiled-le m p e [] h = omega (arith, h)
Tiled-le m p e ((n, used) ∷ bs) (_, (_, h)) = omega (arith, Tiled-le m (p + 4 + n) e bs h)

-- A write behind the tiles.
Tiled-store_behind :
    (m : Mem) (p e a w : ℕ) (bs : List (ℕ × Bool))
    → e ≤ a
    → Tiled m p e bs
    → Tiled (store m a w) p e bs
Tiled-store_behind m p e a w [] l h = h
Tiled-store_behind m p e a w ((n, used) ∷ bs) l (v, (s, h)) =
    let d : a ≢ p = λ q. omega (arith, q, l, Tiled-le m (p + 4 + n) e bs h) in
    (store_ne m a w p d ∙ v, (s, Tiled-store_behind m (p + 4 + n) e a w bs l h))

-- A write before the tiles.
Tiled-store_before :
    (m : Mem) (p e a w : ℕ) (bs : List (ℕ × Bool))
    → a < p
    → Tiled m p e bs
    → Tiled (store m a w) p e bs
Tiled-store_before m p e a w [] l h = h
Tiled-store_before m p e a w ((n, used) ∷ bs) l (v, (s, h)) =
    let d : a ≢ p = λ q. omega (arith, q, l) in
    (store_ne m a w p d ∙ v, (s, Tiled-store_before m (p + 4 + n) e a w bs (omega (arith, l)) h))

Tiled-snoc :
    (m : Mem) (p e n : ℕ) (used : Bool) (bs : List (ℕ × Bool))
    → Tiled m p e bs
    → m e ≡ n + (if used then 2 ^ 31 else 0)
    → n < 2 ^ 31
    → Tiled m p (e + 4 + n) (bs ++ (n, used) ∷ [])
Tiled-snoc m p e n used [] h v s = (ap m h ∙ v, (s, omega (arith, h)))
Tiled-snoc m p e n used ((k, u) ∷ bs) (x, (y, h)) v s =
    (x, (y, Tiled-snoc m (p + 4 + k) e n used bs h v s))

-- Writing the marker of one tile.
Tiled-store_at :
    (m : Mem) (p e n w : ℕ) (u used : Bool) (pre post : List (ℕ × Bool))
    → Tiled m p e (pre ++ (n, u) ∷ post)
    → w ≡ n + (if used then 2 ^ 31 else 0)
    → Tiled (store m (p + span pre) w) p e (pre ++ (n, used) ∷ post)
Tiled-store_at m p e n w u used [] post (v, (s, h)) q =
    let z : p ≡ p + 0 = omega arith in
    subst (λ x. Tiled (store m x w) p e ((n, used) ∷ post)) z
      (store_self m p w ∙ q, (s, Tiled-store_before m (p + 4 + n) e p w post (omega arith) h))
Tiled-store_at m p e n w u used ((k, b) ∷ pre) post (v, (s, h)) q =
    let z : p + 4 + k + span pre ≡ p + (4 + k + span pre) = omega arith in
    let d : p + 4 + k + span pre ≢ p = λ r. omega (arith, r) in
    subst (λ x. Tiled (store m x w) p e ((k, b) ∷ (pre ++ (n, used) ∷ post))) z
      (
        store_ne m (p + 4 + k + span pre) w p d ∙ v,
        (s, Tiled-store_at m (p + 4 + k) e n w u used pre post h q),
      )

Tiled-marker :
    (m : Mem) (p e n : ℕ) (u : Bool) (pre post : List (ℕ × Bool))
    → Tiled m p e (pre ++ (n, u) ∷ post)
    → (m (p + span pre) ≡ n + (if u then 2 ^ 31 else 0))
      × ((n < 2 ^ 31) × (p + span pre + 4 + n ≤ e))
Tiled-marker m p e n u [] post (v, (s, h)) =
    let z : p + 0 ≡ p = omega arith in rw z (v, (s, Tiled-le m (p + 4 + n) e post h))
Tiled-marker m p e n u ((k, b) ∷ pre) post (v, (s, h)) =
    let z : p + (4 + k + span pre) ≡ p + 4 + k + span pre = omega arith in
    rw z (Tiled-marker m (p + 4 + k) e n u pre post h)

low_bits : (n : ℕ) (u : Bool) → n < 2 ^ 31 → (n + (if u then 2 ^ 31 else 0)) % 2 ^ 31 ≡ n
low_bits n true h = omega arith
low_bits n false h = omega arith

-- Freeing the buffer of a tile of a heap below 4 GB marks that tile as free and leaves every other as
-- it is.
pub heap_free-Tiled :
    (m : Mem) (p e n : ℕ) (u : Bool) (pre post : List (ℕ × Bool))
    → e < 2 ^ 32
    → Tiled m p e (pre ++ (n, u) ∷ post)
    → Tiled (heap_free m (p + span pre + 4)) p e (pre ++ (n, false) ∷ post)
unfolding heap_free mark_free marker
heap_free-Tiled m p e n u pre post small h =
    let (v, (s, l)) = Tiled-marker m p e n u pre post h in
    let a : sub32 (p + span pre + 4) 4 ≡ p + span pre = omega (arith, small, l) in
    rw (a, v)
      (Tiled-store_at m p e n ((n + (if u then 2 ^ 31 else 0)) % 2 ^ 31) u false pre post h
        (low_bits n u s ∙ omega arith))

-- What `memory::malloc` returns: nothing, where the rest of the heap is too small, or the address of
-- a new last tile inside the heap.
abbrev pub Grown : Heap → ℕ → List (ℕ × Bool) → Option (ℕ × (Mem × Heap)) → Type 0
Grown h size bs none = h.heap_size < h.offset + size + 4
Grown h size bs (some (p, (m, h'))) =
    (p ≡ h.heap + h.offset + 4)
    × ((p + size ≤ h.heap + h.heap_size)
        × ((h'.offset ≤ h'.heap_size)
            × Tiled m h'.heap (h'.heap + h'.offset) (bs ++ (size, true) ∷ [])))

mark_alloc_self : (m : Mem) (p : ℕ) → mark_alloc m p (sub32 p 4) ≡ m (sub32 p 4) % 2 ^ 31 + 2 ^ 31
unfolding mark_alloc marker
mark_alloc_self m p = store_self m (sub32 p 4) (m (sub32 p 4) % 2 ^ 31 + 2 ^ 31)

set_size_self :
    (m : Mem) (p size : ℕ) → size < 2 ^ 31 → set_size m p size (sub32 p 4) % 2 ^ 31 ≡ size
unfolding set_size with_state
set_size_self m p size h =
    let t : leb (2 ^ 31) size ≡ false = ground arith in
    let q : size % 2 ^ 31 ≡ size = omega arith in
    ap (λ x. x % 2 ^ 31) (store_self m (sub32 p 4) (with_state m p size))
    ∙ rw (t, q) (low_bits size (is_alloc m p) h)

set_size-Tiled :
    (m : Mem) (p e ptr size : ℕ) (bs : List (ℕ × Bool))
    → e ≤ sub32 ptr 4
    → Tiled m p e bs
    → Tiled (set_size m ptr size) p e bs
unfolding set_size
set_size-Tiled m p e ptr size bs l h =
    Tiled-store_behind m p e (sub32 ptr 4) (with_state m ptr size) bs l h

mark_alloc-Tiled :
    (m : Mem) (p e ptr : ℕ) (bs : List (ℕ × Bool))
    → e ≤ sub32 ptr 4
    → Tiled m p e bs
    → Tiled (mark_alloc m ptr) p e bs
unfolding mark_alloc
mark_alloc-Tiled m p e ptr bs l h =
    Tiled-store_behind m p e (sub32 ptr 4) (marker m ptr % 2 ^ 31 + 2 ^ 31) bs l h

allocated-Tiled :
    (m : Mem) (p e ptr size : ℕ) (bs : List (ℕ × Bool))
    → sub32 ptr 4 ≡ e
    → size < 2 ^ 31
    → Tiled m p e bs
    → Tiled (mark_alloc (set_size m ptr size) ptr) p (e + 4 + size) (bs ++ (size, true) ∷ [])
allocated-Tiled m p e ptr size bs a s h =
    let l : e ≤ sub32 ptr 4 = omega (arith, a) in
    Tiled-snoc (mark_alloc (set_size m ptr size) ptr) p e size true bs
      (mark_alloc-Tiled (set_size m ptr size) p e ptr bs l (set_size-Tiled m p e ptr size bs l h))
      (ap (mark_alloc (set_size m ptr size) ptr) (sym a)
        ∙ mark_alloc_self (set_size m ptr size) ptr
        ∙ ap (λ x. x + 2 ^ 31) (set_size_self m ptr size s))
      s

-- On a heap below 4 GB that is tiled up to its offset and has at most 2 GB, `memory::malloc` for a size
-- of at most 1 GB returns nothing only where the rest of the heap is too small for the buffer and its
-- marker. Otherwise it returns a buffer inside the heap, behind all the others, which stay as they are,
-- and the heap is tiled with the new buffer, in use, as the last.
pub heap_malloc-Grown :
    (m : Mem) (h : Heap) (size : ℕ) (bs : List (ℕ × Bool))
    → h.heap + h.heap_size < 2 ^ 32
    → h.heap_size ≤ 2 ^ 31
    → h.offset ≤ h.heap_size
    → size ≤ 2 ^ 30
    → Tiled m h.heap (h.heap + h.offset) bs
    → Grown h size bs (heap_malloc m h size)
unfolding heap_malloc
heap_malloc-Grown m h size bs room small within s t =
    let u : add32 (add32 h.offset size) 4 ≡ h.offset + size + 4 = omega arith in
    elim (Bool-cases (ltb h.heap_size (h.offset + size + 4))) [
      | inl e ↦ rw (u, e) (ltb→lt h.heap_size (h.offset + size + 4) e)
      | inr e ↦
          (let f = ltb-false→le h.heap_size (h.offset + size + 4) e in
            let p : add32 h.heap (add32 h.offset 4) ≡ h.heap + h.offset + 4 = omega (arith, f) in
            let o : add32 h.offset (add32 size 4) ≡ h.offset + size + 4 = omega (arith, f) in
            let a : sub32 (h.heap + h.offset + 4) 4 ≡ h.heap + h.offset = omega (arith, f) in
            let z : h.heap + h.offset + 4 + size ≡ h.heap + (h.offset + size + 4) = omega arith in
            let r =
              allocated-Tiled m h.heap (h.heap + h.offset) (h.heap + h.offset + 4) size bs a
                (omega (arith, s)) t in
            rw (u, e, p, o)
              (
                refl,
                (
                  omega (arith, f),
                  (
                    f,
                    subst
                        (λ x.
                          Tiled
                            (mark_alloc (set_size m (h.heap + h.offset + 4) size)
                              (h.heap + h.offset + 4))
                            h.heap x (bs ++ (size, true) ∷ []))
                        z r,
                  ),
                ),
              ))
    ]

-- A size that is rounded to whole blocks of 8 bytes with its marker is not less than before, and less
-- than 8 more, for a size at least 12 below 2^32.
pub adjust_to_mem_block-lem :
    (size : ℕ)
    → size + 12 ≤ 2 ^ 32
    → ((adjust_to_mem_block size + 4) % 8 ≡ 0)
      × ((size ≤ adjust_to_mem_block size) × (adjust_to_mem_block size < size + 8))
unfolding adjust_to_mem_block
adjust_to_mem_block-lem size h =
    let a : add32 size 4 ≡ size + 4 = omega arith in
    elim (Bool-cases (ltb 0 ((size + 4) % 8))) [
      | inl e ↦
          (let c = ltb→lt 0 ((size + 4) % 8) e in
            let b : add32 size (8 - (size + 4) % 8) ≡ size + (8 - (size + 4) % 8) =
              omega (arith, c) in
            rw (a, e, b) (omega (arith, c), (omega arith, omega (arith, c))))
      | inr e ↦
          (let c = ltb-false→le 0 ((size + 4) % 8) e in
            rw (a, e) (omega (arith, c), (omega arith, omega arith)))
    ]
