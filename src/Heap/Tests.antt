-- ===== src/Heap/Tests.antt =====
-- A heap of 64 bytes with one buffer in use.
use taurus_cdt.Prelude.{
  ℕ, ◌*◌, ◌-◌, ◌%◌, ◌<◌, ◌≤◌, ◌≡◌, ◌⊎◌, Bool, ltb, some, ok, ◌+◌, ◌^◌, refl, [], ◌∷◌, true, false,
  ◌==◌, if◌then◌else◌, arith,
}
use taurus_cdt.Alloc.Store.{Mem}
use taurus_cdt.Heap.{Heap, is_init, adjust_to_mem_block}
use taurus_cdt.Heap.Manager.{Manager, page, minus_one, started, sbrk, heap_adjustment, malloc}
use taurus_cdt.Heap.Breaks.{Backed, Moved, sbrk-Moved, heap_adjustment-lem}
use taurus_cdt.Heap.Serving.{Active, Served, malloc-Served}
use taurus_cdt.Heap.Tiling.{Tiled}

abbrev one_buffer : Mem
one_buffer a = if a == 1024 then 12 + 2 ^ 31 else 0

abbrev small_heap : Heap
small_heap = record { heap_size = 64; heap = 1024; offset = 16 }

one_buffer-Tiled : Tiled one_buffer 1024 1040 ((12, true) ∷ [])
one_buffer-Tiled = (refl, (omega arith, refl))

abbrev two_pages : Manager
two_pages = record {
  mem = one_buffer;
  pages = 2;
  initialized = true;
  sbrk_bytes = 70000;
  available_heaps = small_heap ∷ small_heap ∷ [];
  heaps_actual_size = 16;
  active_heap = 0;
  active_free_heap = 0;
}

abbrev grants : ℕ → ℕ → Bool
grants pages delta = ltb (pages + delta) 100

two_pages-Active : Active two_pages small_heap ((12, true) ∷ [])
unfolding is_init
two_pages-Active = record {
  used = omega arith;
  chosen = omega arith;
  stands = refl;
  ready = refl;
  room = omega arith;
  small = omega arith;
  within = omega arith;
  tiles = one_buffer-Tiled;
}

size_twenty : adjust_to_mem_block 20 ≡ 20
unfolding adjust_to_mem_block
size_twenty = refl

malloc-Served_example :
    (ptr : ℕ) × (s' : Manager) × (malloc grants false 1024 1 two_pages 20 ≡ ok (some ptr, s'))
    × Served two_pages s' small_heap ((12, true) ∷ []) (adjust_to_mem_block 20) ptr
malloc-Served_example =
    malloc-Served grants false 1024 0 two_pages small_heap ((12, true) ∷ []) 20 two_pages-Active
      (omega arith) (omega (arith, size_twenty)) (omega (arith, size_twenty))

two_pages-Backed : Backed (started two_pages)
unfolding started
two_pages-Backed = omega arith

two_pages_room : (started two_pages).sbrk_bytes + 100000 + 8 + page ≤ 2 ^ 32
unfolding started
two_pages_room = omega arith

sbrk-Moved_example :
    (sbrk grants false 1024 two_pages 100000 ≡ (minus_one, started two_pages))
    ⊎ (((sbrk grants false 1024 two_pages 100000).0 ≡ (started two_pages).sbrk_bytes)
        × Moved (started two_pages) (sbrk grants false 1024 two_pages 100000).1 100000)
sbrk-Moved_example = sbrk-Moved grants false 1024 two_pages 100000 two_pages-Backed two_pages_room

-- Near the end of a page of an odd number, only the rest of it.
heap_adjustment-lem_example :
    ((130436 + heap_adjustment 130436) % page ≡ 0)
    × (heap_adjustment 130436 ≤ 2 * page)
    × (130436 % page ≤ page - 1024
        → (1024 ≤ heap_adjustment 130436) × (heap_adjustment 130436 ≤ page))
    × (page - 1024 < 130436 % page → 130436 % (2 * page) < page → page < heap_adjustment 130436)
    × (page - 1024 < 130436 % page → page ≤ 130436 % (2 * page) → heap_adjustment 130436 < 1024)
heap_adjustment-lem_example = heap_adjustment-lem 130436 (omega arith)
