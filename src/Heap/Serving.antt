-- ===== src/Heap/Serving.antt =====
-- `memory_manager::malloc` of libraries/eosiolib/malloc.cpp from the heap that is active.
use taurus_cdt.Prelude.{
  ℕ, zero, suc, ◌+◌, ◌^◌, ◌<◌, ◌≤◌, ◌≡◌, ◌≢◌, refl, ◌∙◌, ap, subst, List, [], ◌∷◌, ◌++◌, Bool, true,
  false, ◌&&◌, ◌==◌, some, ok, get_elem?, set, arith, ne→==-false, add32, sub32, le→ltb-false,
  lt→ltb,
}
use taurus_cdt.Alloc.Store.{Mem, store_ne}
use taurus_cdt.Heap.{Heap, is_init, set_size, mark_alloc, heap_malloc, adjust_to_mem_block}
use taurus_cdt.Heap.Tiling.{Tiled, Grown, heap_malloc-Grown}
use taurus_cdt.Heap.Manager.{Manager, heap_at, put_heap, served_or, start_heap, malloc_loop, malloc}

get_elem?-set :
    {A : Type 0}
    → (xs : List A) (i : ℕ) (x y : A) → get_elem? xs i ≡ some x
    → get_elem? (set xs i y) i ≡ some y
get_elem?-set [] i x y e = cc
get_elem?-set (z ∷ xs) zero x y e = refl
get_elem?-set (z ∷ xs) (suc i) x y e = get_elem?-set xs i x y e

set_others :
    {A : Type 0}
    → (xs : List A) (i j : ℕ) (y : A) → i ≢ j
    → get_elem? (set xs i y) j ≡ get_elem? xs j
set_others [] i j y n = refl
set_others (z ∷ xs) zero zero y n = absurd (n refl)
set_others (z ∷ xs) zero (suc j) y n = refl
set_others (z ∷ xs) (suc i) zero y n = refl
set_others (z ∷ xs) (suc i) (suc j) y n = set_others xs i j y (λ e. n (ap suc e))

and_false : (b : Bool) → (b && false) ≡ false
and_false true = refl
and_false false = refl

-- The active heap, and the buffers in it.
pub record Active (s : Manager) (h : Heap) (bs : List (ℕ × Bool)) : Type 0 where
  pub used : 0 < s.heaps_actual_size
  pub chosen : s.active_heap < s.heaps_actual_size
  pub stands : get_elem? s.available_heaps s.active_heap ≡ some h
  pub ready : is_init h ≡ true
  pub room : h.heap + h.heap_size < 2 ^ 32
  pub small : h.heap_size ≤ 2 ^ 31
  pub within : h.offset ≤ h.heap_size
  pub tiles : Tiled s.mem h.heap (h.heap + h.offset) bs

-- What a call that served a block left behind.
pub record Served (s s' : Manager) (h : Heap) (bs : List (ℕ × Bool)) (size ptr : ℕ) : Type 0 where
  pub grown :
      get_elem? s'.available_heaps s.active_heap ≡ some (record h { offset = h.offset + size + 4 })
  pub behind : ptr ≡ h.heap + h.offset + 4
  pub inside : ptr + size ≤ h.heap + h.heap_size
  pub tiled : Tiled s'.mem h.heap (h.heap + (h.offset + size + 4)) (bs ++ (size, true) ∷ [])
  pub kept : s' ≡ record s { mem = s'.mem; available_heaps = s'.available_heaps }
  pub untouched : (a : ℕ) → h.heap + h.offset ≢ a → s'.mem a ≡ s.mem a
  pub others :
      (j : ℕ) → s.active_heap ≢ j → get_elem? s'.available_heaps j ≡ get_elem? s.available_heaps j

-- What `memory::malloc` leaves in memory for a buffer behind the others, and in the heap.
abbrev allocated : Mem → Heap → ℕ → Mem
allocated m h size = mark_alloc (set_size m (h.heap + h.offset + 4) size) (h.heap + h.offset + 4)

abbrev moved_heap : Heap → ℕ → Heap
moved_heap h size = record h { offset = h.offset + size + 4 }

-- Only the marker is written.
allocated_ne :
    (m : Mem) (h : Heap) (size a : ℕ)
    → h.heap + h.offset + 4 < 2 ^ 32
    → h.heap + h.offset ≢ a
    → allocated m h size a ≡ m a
unfolding set_size mark_alloc
allocated_ne m h size a room n =
    let p : sub32 (h.heap + h.offset + 4) 4 ≡ h.heap + h.offset = omega (arith, room) in
    rw p (store_ne _ (h.heap + h.offset) _ a n ∙ store_ne m (h.heap + h.offset) _ a n)

heap_malloc_room :
    (m : Mem) (h : Heap) (size : ℕ)
    → h.heap + h.heap_size < 2 ^ 32
    → h.offset + size + 4 ≤ h.heap_size
    → heap_malloc m h size ≡ some (h.heap + h.offset + 4, (allocated m h size, moved_heap h size))
unfolding heap_malloc
heap_malloc_room m h size room r =
    let u : add32 (add32 h.offset size) 4 ≡ h.offset + size + 4 = omega (arith, room, r) in
    let p : add32 h.heap (add32 h.offset 4) ≡ h.heap + h.offset + 4 = omega (arith, room, r) in
    let o : add32 h.offset (add32 size 4) ≡ h.offset + size + 4 = omega (arith, room, r) in
    rw (u, le→ltb-false h.heap_size (h.offset + size + 4) r, p, o) refl

module _ (can_grow : ℕ → ℕ → Bool) (keeps_sign : Bool) (initial_heap : ℕ) where
  malloc_loop-Served :
      (n : ℕ) (s : Manager) (h : Heap) (bs : List (ℕ × Bool)) (size : ℕ)
      → Active s h bs
      → size ≤ 2 ^ 30
      → h.offset + size + 4 ≤ h.heap_size
      → (ptr : ℕ) × (s' : Manager) × (malloc_loop can_grow keeps_sign initial_heap
            (suc n)
            s
            size
            (some s.active_heap)
          ≡ ok (some ptr, s'))
        × Served s s' h bs size ptr
  unfolding malloc_loop heap_at put_heap
  malloc_loop-Served n s h bs size a l r =
      let e = heap_malloc_room s.mem h size a.room r in
      let g = heap_malloc-Grown s.mem h size bs a.room a.small a.within l a.tiles in
      let (p, (i, (o, t))) = subst (Grown h size bs) e g in
      (
        h.heap + h.offset + 4,
        put_heap s s.active_heap (allocated s.mem h size, moved_heap h size),
        rw (heap_at, a.stands)
            (ap (served_or can_grow keeps_sign initial_heap s s.active_heap _) e),
        record {
          grown = get_elem?-set s.available_heaps s.active_heap h (moved_heap h size) a.stands;
          behind = p;
          inside = i;
          tiled = t;
          kept = refl;
          untouched = λ x. allocated_ne s.mem h size x (omega (arith, a.room, r));
          others = λ j n. set_others s.available_heaps s.active_heap j (moved_heap h size) n;
        },
      )

  start_heap_ready :
      (s : Manager) (h : Heap) (bs : List (ℕ × Bool))
      → Active s h bs
      → start_heap can_grow keeps_sign initial_heap s ≡ ok (some s.active_heap, s)
  unfolding start_heap heap_at
  start_heap_ready s h bs a = rw (heap_at, a.stands, a.ready, and_false (s.active_heap == 0)) refl

  -- Where the active heap is one of those in use, is set up, ends below 4 GB, has at most 2 GB, is tiled by its buffers up to its offset, and
  -- has room for a block of the size, which is rounded to whole blocks with its marker and at most 1 GB, `malloc`
  -- serves a request of at least a byte in a round: behind the others of that heap, inside it, with the heap tiled by
  -- one buffer more, in use. Of the heap only the offset moves, no other heap's record changes, nor does anything else
  -- of the manager, and in memory nothing changes but the word of the new marker, at the old offset.
  pub malloc-Served :
      (n : ℕ) (s : Manager) (h : Heap) (bs : List (ℕ × Bool)) (size : ℕ)
      → Active s h bs
      → 0 < size
      → adjust_to_mem_block size ≤ 2 ^ 30
      → h.offset + adjust_to_mem_block size + 4 ≤ h.heap_size
      → (ptr : ℕ) × (s' : Manager) × (malloc can_grow keeps_sign initial_heap (suc n) s size
          ≡ ok (some ptr, s'))
        × Served s s' h bs (adjust_to_mem_block size) ptr
  unfolding malloc
  malloc-Served n s h bs size a z l r =
      let (ptr, s', e, w) = malloc_loop-Served n s h bs (adjust_to_mem_block size) a l r in
      (
        ptr,
        s',
        rw
            (
              ne→==-false size 0 (λ q. omega (arith, q, z)),
              ne→==-false s.heaps_actual_size 0 (λ q. omega (arith, q, a.used)),
              lt→ltb s.active_heap s.heaps_actual_size a.chosen,
              start_heap_ready s h bs a,
              e,
            )
            refl,
        w,
      )
