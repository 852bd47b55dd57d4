-- ===== src/Heap.antt =====
-- One heap of the memory manager in libraries/eosiolib/malloc.cpp: the classes `memory` and
-- `buffer_ptr`. A heap is a row of buffers, each after a marker with its size and, in the highest bit,
-- whether it is in use. Memory is a function from addresses to words.
pub mod Tiling
pub mod Merging
pub mod Manager
pub mod Breaks
pub mod Serving
mod Tests
use taurus_cdt.Prelude.{
  ℕ, zero, suc, ◌+◌, ◌-◌, ◌*◌, ◌%◌, ◌^◌, Bool, true, false, not, ◌&&◌, ◌||◌, ◌==◌, ltb, leb,
  if◌then◌else◌, Option, none, some, Result, ok, err, ◌>>◌, check, add32, sub32,
}
use taurus_cdt.Alloc.Store.{Mem, store}

abbrev pub size_marker : ℕ
size_marker = 4

-- `buffer_ptr`, without `_heap_end`, which all the buffers of a heap share.
pub record Buffer : Type 0 where
  pub ptr : ℕ
  pub size : ℕ

-- The marker of the buffer at an address.
unfoldable pub marker : Mem → ℕ → ℕ
marker m ptr = m (sub32 ptr size_marker)

-- The constructor from an address.
unfoldable pub open_buffer : Mem → ℕ → Buffer
unfolding marker
open_buffer m ptr = record { ptr = ptr; size = marker m ptr % 2 ^ 31 }

unfoldable pub is_alloc : Mem → ℕ → Bool
unfolding marker
is_alloc m ptr = leb (2 ^ 31) (marker m ptr)

-- `val | memory_state`: the highest bit is the one of `val` or the one that was set before.
unfoldable pub with_state : Mem → ℕ → ℕ → ℕ
unfolding is_alloc
with_state m ptr val = val % 2 ^ 31 + (if leb (2 ^ 31) val || is_alloc m ptr then 2 ^ 31 else 0)

-- `size( val )`, and the constructor with a size.
unfoldable pub set_size : Mem → ℕ → ℕ → Mem
unfolding with_state
set_size m ptr val = store m (sub32 ptr size_marker) (with_state m ptr val)

unfoldable pub mark_alloc : Mem → ℕ → Mem
unfolding marker
mark_alloc m ptr = store m (sub32 ptr size_marker) (marker m ptr % 2 ^ 31 + 2 ^ 31)

unfoldable pub mark_free : Mem → ℕ → Mem
unfolding marker
mark_free m ptr = store m (sub32 ptr size_marker) (marker m ptr % 2 ^ 31)

unfoldable pub next_ptr : Buffer → ℕ → Option ℕ
next_ptr b heap_end =
    if leb heap_end (add32 (add32 b.ptr b.size) size_marker)
    then none
    else some (add32 (add32 b.ptr b.size) size_marker)

-- The loop of `merge_contiguous`. A round adds at least a marker to `possible_size`, so the fuel of
-- `needed_size` rounds is enough.
unfoldable pub merge_loop : ℕ → Mem → ℕ → ℕ → ℕ → ℕ → ℕ
merge_loop zero m ptr heap_end needed_size possible_size = possible_size
merge_loop (suc fuel) m ptr heap_end needed_size possible_size =
    let flag_size = m (add32 ptr possible_size) in
    let rest =
      merge_loop fuel m ptr heap_end needed_size
        (add32 possible_size (add32 (flag_size % 2 ^ 31) size_marker)) in
    if ltb possible_size needed_size
      && ltb (add32 ptr possible_size) heap_end
      && not (leb (2 ^ 31) flag_size)
    then rest
    else possible_size

unfoldable pub min_size : ℕ → ℕ → ℕ
min_size a b = if ltb a b then a else b

-- What stands after the loop: the combined buffer, and a free one for what is left.
unfoldable pub combine : Mem → ℕ → ℕ → ℕ → Mem
unfolding set_size mark_free min_size
combine m ptr needed_size possible_size =
    let m₁ = set_size m ptr (min_size possible_size needed_size) in
    let rest = add32 (add32 ptr needed_size) size_marker in
    if ltb needed_size possible_size
    then mark_free (set_size m₁ rest (sub32 (sub32 possible_size needed_size) size_marker)) rest
    else m₁

-- `merge_contiguous`: whether the buffer has the needed size now, the memory and the buffer.
unfoldable pub merge_contiguous : Mem → Buffer → ℕ → ℕ → Bool → Bool × (Mem × Buffer)
unfolding merge_loop combine min_size
merge_contiguous m b heap_end needed_size all_or_nothing =
    let possible = merge_loop needed_size m b.ptr heap_end needed_size b.size in
    if all_or_nothing && ltb (sub32 heap_end b.ptr) needed_size
    then (false, (m, b))
    else (if all_or_nothing && ltb possible needed_size then (false, (m, b)) else (
      min_size possible needed_size == needed_size,
      (
        combine m b.ptr needed_size possible,
        record { ptr = b.ptr; size = min_size possible needed_size },
      ),
    ))

-- `memory`
pub record Heap : Type 0 where
  pub heap_size : ℕ
  pub heap : ℕ
  pub offset : ℕ

unfoldable pub heap_end : Heap → ℕ
heap_end h = add32 h.heap h.heap_size

unfoldable pub init_heap : Heap → ℕ → ℕ → Heap
init_heap h mem_heap size = record h { heap_size = size; heap = mem_heap }

unfoldable pub is_init : Heap → Bool
is_init h = not (h.heap == 0)

unfoldable pub is_in_heap : Heap → ℕ → Bool
unfolding heap_end
is_in_heap h ptr = leb (add32 h.heap size_marker) ptr && ltb ptr (heap_end h)

unfoldable pub is_capacity_remaining : Heap → Bool
is_capacity_remaining h = ltb (add32 h.offset size_marker) h.heap_size

-- `memory::malloc`
unfoldable pub heap_malloc : Mem → Heap → ℕ → Option (ℕ × (Mem × Heap))
unfolding set_size mark_alloc
heap_malloc m h size =
    let ptr = add32 h.heap (add32 h.offset size_marker) in
    if ltb h.heap_size (add32 (add32 h.offset size) size_marker)
    then none
    else some (
      ptr,
      (
        mark_alloc (set_size m ptr size) ptr,
        record h { offset = add32 h.offset (add32 size size_marker) },
      ),
    )

-- The loop of `malloc_from_freed` from the buffer at `current`. Each round goes past a marker, so the
-- fuel of the heap's size is enough.
unfoldable pub freed_loop : ℕ → Mem → ℕ → ℕ → ℕ → Option ℕ × Mem
unfolding open_buffer is_alloc merge_contiguous mark_alloc next_ptr
freed_loop zero m end size current = (none, m)
freed_loop (suc fuel) m end size current =
    let b = open_buffer m current in
    let (merged, (m₁, b₁)) = merge_contiguous m b end size false in
    let free = not (is_alloc m current) in
    let m₂ = if free then m₁ else m in
    let b₂ = if free then b₁ else b in
    let rest : Option ℕ × Mem = elim (next_ptr b₂ end) [
      | none ↦ (none, m₂)
      | some next ↦ freed_loop fuel m₂ end size next
    ] in
    if free && merged then (some current, mark_alloc m₁ current) else rest

pub data Misused : Type 0 where
  not_completely_allocated : Misused

-- `memory::malloc_from_freed`
unfoldable pub malloc_from_freed : Mem → Heap → ℕ → Result Misused (Option ℕ × Mem)
unfolding freed_loop heap_end
malloc_from_freed m h size =
    check (h.offset == h.heap_size) not_completely_allocated
    >> ok (freed_loop h.heap_size m (heap_end h) size (add32 h.heap size_marker))

-- `memory::free`
unfoldable pub heap_free : Mem → ℕ → Mem
unfolding mark_free
heap_free m ptr = mark_free m ptr

-- `memory::cleanup_remaining`
unfoldable pub cleanup_remaining : Mem → Heap → Mem × Heap
unfolding set_size mark_free
cleanup_remaining m h =
    let ptr = add32 h.heap (add32 h.offset size_marker) in
    let size = sub32 (sub32 h.heap_size h.offset) size_marker in
    if h.offset == h.heap_size
    then (m, h)
    else (mark_free (set_size m ptr size) ptr, record h { offset = h.heap_size })

-- `memory::expand_memory`
unfoldable pub expand_memory : Heap → ℕ → ℕ → Bool × Heap
unfolding heap_end
expand_memory h exp_mem size =
    if heap_end h == exp_mem
    then (true, record h { heap_size = add32 h.heap_size size })
    else (false, h)

-- `memory::realloc_in_place`: the address, `orig_ptr_size`, the memory and the heap.
unfoldable pub realloc_in_place : Mem → Heap → ℕ → ℕ → Option ℕ × (ℕ × (Mem × Heap))
unfolding heap_end open_buffer set_size mark_free mark_alloc merge_contiguous
realloc_in_place m h ptr size =
    let end = heap_end h in
    let orig = open_buffer m ptr in
    let orig_end = add32 ptr orig.size in
    let new_ptr = add32 (add32 ptr size) size_marker in
    let (merged, (m₁, b₁)) = merge_contiguous m orig end size true in
    if ltb end orig_end
    then (none, (0, (m, h)))
    else (if ltb (sub32 end size) ptr
        then (none, (orig.size, (m, h)))
        else (if ltb size orig.size
            then (
              some ptr,
              (orig.size, (mark_free (set_size m new_ptr (sub32 orig.size size)) new_ptr, h)),
            )
            else (if orig_end == add32 h.heap h.offset
                then (
                  some ptr,
                  (
                    orig.size,
                    (
                      set_size m ptr size,
                      record h { offset = add32 h.offset (sub32 size orig.size) },
                    ),
                  ),
                )
                else (if size == orig.size
                    then (some ptr, (orig.size, (m, h)))
                    else (if merged
                        then (some ptr, (orig.size, (mark_alloc m₁ ptr, h)))
                        else (none, (orig.size, (m, h))))))))

-- `adjust_to_mem_block`
unfoldable pub adjust_to_mem_block : ℕ → ℕ
adjust_to_mem_block size =
    let remainder = add32 size size_marker % 8 in
    if ltb 0 remainder then add32 size (8 - remainder) else size
