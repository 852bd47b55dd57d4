-- ===== src/Alloc/Dsmalloc.antt =====
-- `dsmalloc` and the C functions of libraries/eosiolib/simple_malloc.cpp.
-- The host grows the memory: `can_grow pages delta` says whether it grants `delta` more pages.
use taurus_cdt.Prelude.{
  ℕ, ◌+◌, ◌-◌, ◌*◌, ◌/◌, ◌^◌, List, Option, none, some, Bool, false, leb, ◌==◌, if◌then◌else◌, not,
  Result, ok, err, add32, sub32, mul32, get_or,
}
use taurus_cdt.Alloc.Store.{Mem, store}
use taurus_cdt.Alloc.Small.{init_free_lists, find_small_mem_size, allocate_from_free_list}
use taurus_cdt.Alloc.Big.{BigChunk, chunks_of, max_bigchunk_items, alloc_from_bigchunk}

pub data Failure : Type 0 where
  failed_to_allocate_pages : Failure

-- The allocator's members, the pages that the host has granted, the memory, and the flag of
-- `_eosio_malloc_is_free_enabled`.
pub record Dsmalloc : Type 0 where
  pub mem : Mem
  pub free_lists : List ℕ
  pub bigchunks : List BigChunk
  pub last_ptr : ℕ
  pub next_page : ℕ
  pub pages : ℕ
  pub free_enabled : Bool

abbrev pub free_list_meta_size : ℕ
free_list_meta_size = 16

-- `(ptr + align_amt - 1) & ~(align_amt - 1)`, where `align_amt` is a power of two or 0.
unfoldable pub align : ℕ → ℕ → ℕ
align ptr align_amt = add32 ptr (sub32 align_amt 1) / align_amt * align_amt

-- The constructor: `heap_base` is the address of `__heap_base`.
unfoldable pub init : Mem → ℕ → ℕ → Dsmalloc
init m heap_base current_memory = record {
  mem = m;
  free_lists = init_free_lists;
  bigchunks = chunks_of max_bigchunk_items;
  last_ptr = heap_base;
  next_page = current_memory;
  pages = current_memory;
  free_enabled = false;
}

-- The word that holds the `int16_t` result of `find_small_mem_size`.
unfoldable pub id_word : Option ℕ → ℕ
id_word none = 2 ^ 32 - 1
id_word (some i) = i

-- The header of a block: its list and its size.
unfoldable pub write_header : Mem → ℕ → Option ℕ → ℕ → Mem
unfolding id_word store
write_header m ret id sz = store (store m ret (id_word id)) (ret + 4) sz

-- Pages to ask for, after `sz` bytes more up to `last`: at `next_page + sz / 2 ^ 16` the last
-- byte may still lie on the page behind.
unfoldable pub pages_for : ℕ → ℕ → ℕ → ℕ
pages_for next_page sz last =
    let pages_to_alloc = sz / 2 ^ 16 in
    if leb (mul32 (add32 next_page pages_to_alloc) (2 ^ 16)) last
    then pages_to_alloc + 1
    else pages_to_alloc

-- The path through the freed big chunks, when the host grants no page.
unfoldable pub alloc_reused : Dsmalloc → Option ℕ → ℕ → Result Failure (ℕ × Dsmalloc)
unfolding alloc_from_bigchunk write_header
alloc_reused s id sz =
    let (ret, chunks) = alloc_from_bigchunk sz s.bigchunks in
    if not (ret == 0)
    then ok (
      add32 ret free_list_meta_size,
      record s { bigchunks = chunks; mem = write_header s.mem ret id sz },
    )
    else err failed_to_allocate_pages

-- The path that takes a chunk of the right size from its free list.
unfoldable pub alloc_listed : Dsmalloc → ℕ → ℕ → ℕ × Dsmalloc
unfolding allocate_from_free_list
alloc_listed s id sz =
    let (cur, m, lists) = allocate_from_free_list id sz s.mem s.free_lists in
    (add32 cur free_list_meta_size, record s { mem = m; free_lists = lists })

-- `id` is not negative, and its list is not empty.
unfoldable pub is_listed : Dsmalloc → Option ℕ → Bool
is_listed s none = false
is_listed s (some id) = not (get_or s.free_lists id 0 == 0)

module _ (can_grow : ℕ → ℕ → Bool) where
  -- The path that moves `last_ptr`.
  unfoldable pub alloc_fresh : Dsmalloc → Option ℕ → ℕ → ℕ → Result Failure (ℕ × Dsmalloc)
  unfolding alloc_reused pages_for write_header align
  alloc_fresh s id sz align_amt =
      let last = align (add32 s.last_ptr sz) align_amt in
      let delta = pages_for s.next_page sz last in
      if can_grow s.pages delta
      then ok (
        add32 s.last_ptr free_list_meta_size,
        record s {
          mem = write_header s.mem s.last_ptr id sz;
          last_ptr = last;
          next_page = add32 s.next_page delta;
          pages = s.pages + delta;
        },
      )
      else alloc_reused s id sz

  unfoldable pub alloc_sized : Dsmalloc → Option ℕ → ℕ → ℕ → Result Failure (ℕ × Dsmalloc)
  unfolding alloc_fresh alloc_listed is_listed
  alloc_sized s id sz align_amt =
      if is_listed s id then ok (alloc_listed s (id_word id) sz) else alloc_fresh s id sz align_amt

  -- `operator()`: the pointer (0 for `NULL`) and the allocator.
  unfoldable pub allocate : Dsmalloc → ℕ → ℕ → Result Failure (ℕ × Dsmalloc)
  unfolding alloc_sized find_small_mem_size align
  allocate s sz align_amt =
      let (id, rounded) = find_small_mem_size (align (add32 sz free_list_meta_size) align_amt) in
      if sz == 0 then ok (0, s) else alloc_sized s id rounded align_amt
