-- ===== src/Heap/Manager.antt =====
-- `memory_manager` of libraries/eosiolib/malloc.cpp with `sbrk` and the functions of C: the heaps, and the choice
-- among them. Whether the host grows the memory, where `_initial_heap` stands, and whether the
-- compiler keeps the sign in a conversion of a pointer to 64 bits are parameters.
use taurus_cdt.Prelude.{
  ℕ, zero, suc, ◌-◌, ◌*◌, ◌/◌, ◌%◌, ◌^◌, List, [], ◌∷◌, Bool, true, not, ◌&&◌, ◌==◌, ltb, leb,
  if◌then◌else◌, Option, none, some, Result, ok, err, ◌>>=◌, add32, sub32, mul32, get_elem?, set,
  take,
}
use taurus_cdt.Alloc.Store.{Mem}
use taurus_cdt.Alloc.Libc.{memmove, memset_zero}
use taurus_cdt.Heap.{
  Heap, init_heap, is_init, is_in_heap, heap_malloc, malloc_from_freed, heap_free,
  cleanup_remaining, expand_memory, realloc_in_place, adjust_to_mem_block,
}

abbrev pub page : ℕ
page = 2 ^ 16

abbrev pub heaps_size : ℕ
heaps_size = 16

abbrev pub initial_heap_size : ℕ
initial_heap_size = 8192

-- `reinterpret_cast<void*>( -1 )`
abbrev pub minus_one : ℕ
minus_one = 2 ^ 32 - 1

-- The members, with the variables of `sbrk` and the pages of the memory.
pub record Manager : Type 0 where
  pub mem : Mem
  pub pages : ℕ
  pub initialized : Bool
  pub sbrk_bytes : ℕ
  pub available_heaps : List Heap
  pub heaps_actual_size : ℕ
  pub active_heap : ℕ
  pub active_free_heap : ℕ

-- What the code does not survive: an element past `_available_heaps`, and a failed check.
pub data ManagerFailure : Type 0 where
  past_the_heaps misused out_of_rounds : ManagerFailure

unfoldable pub started : Manager → Manager
started s =
    if s.initialized then s else record s { sbrk_bytes = mul32 s.pages page; initialized = true }

-- `num_bytes` rounded up to whole 8 bytes.
unfoldable pub rounded : ℕ → ℕ
rounded num_bytes = add32 num_bytes 7 - add32 num_bytes 7 % 8

unfoldable pub desired_pages : ℕ → ℕ → ℕ
desired_pages bytes num_bytes = sub32 (add32 (add32 bytes num_bytes) page) 1 / page

-- `heap_adj`, up to the end of the page or of the next one.
unfoldable pub heap_adjustment : ℕ → ℕ
heap_adjustment size =
    if leb (size % page) (page - 1024)
    then sub32 (sub32 (add32 size page) (size % page)) size
    else sub32 (sub32 (add32 size (page * 2)) (size % (page * 2))) size

unfoldable pub heap_at : Manager → ℕ → Result ManagerFailure Heap
heap_at s i = elim (get_elem? s.available_heaps i) [ none ↦ err past_the_heaps | some h ↦ ok h ]

unfoldable pub put_heap : Manager → ℕ → Mem × Heap → Manager
put_heap s i (m, h) = record s { mem = m; available_heaps = set s.available_heaps i h }

-- The first heap in use that holds an address, from an index on.
unfoldable pub heap_of : ℕ → List Heap → ℕ → Option (ℕ × Heap)
unfolding is_init is_in_heap
heap_of i [] ptr = none
heap_of i (h ∷ hs) ptr =
    let rest = heap_of (suc i) hs ptr in
    if is_init h then (if is_in_heap h ptr then some (i, h) else rest) else none

unfoldable pub find_heap : Manager → ℕ → Option (ℕ × Heap)
unfolding heap_of
find_heap s ptr = heap_of 0 (take s.heaps_actual_size s.available_heaps) ptr

-- `memory_manager::free`
unfoldable pub free : Manager → ℕ → Manager
unfolding find_heap heap_free
free s ptr =
    let freed : Manager = elim (find_heap s ptr) [
      | none ↦ s
      | some (i, h) ↦ record s { mem = heap_free s.mem ptr }
    ] in
    if ptr == 0 then s else freed

module _ (can_grow : ℕ → ℕ → Bool) (keeps_sign : Bool) (initial_heap : ℕ) where
  -- `sbrk( num_bytes )`
  unfoldable pub sbrk : Manager → ℕ → ℕ × Manager
  sbrk s num_bytes =
      let s₁ = started s in
      let n = rounded num_bytes in
      let desired = desired_pages s₁.sbrk_bytes n in
      let pages = if ltb s₁.pages desired then desired else s₁.pages in
      if ltb (2 ^ 31 - 1) num_bytes
      then (minus_one, s₁)
      else (if ltb s₁.pages desired && not (can_grow s₁.pages (desired - s₁.pages))
          then (minus_one, s₁)
          else (s₁.sbrk_bytes, record s₁ { pages = pages; sbrk_bytes = add32 s₁.sbrk_bytes n }))

  -- `next_active_heap`: the index of the heap. An unsigned size is never negative in 64 bits.
  unfoldable pub next_active_heap : Manager → Result ManagerFailure (Option ℕ × Manager)
  unfolding heap_at put_heap cleanup_remaining expand_memory init_heap
  next_active_heap s = heap_at s s.active_heap >>= λ current.
      let (size, s₁) = sbrk s 0 in
      let adj = heap_adjustment size in
      let (start, s₂) = sbrk s₁ adj in
      let next = add32 s.active_heap 1 in
      let cleaned = put_heap s₂ s.active_heap (cleanup_remaining s₂.mem current) in
      let (expanded, h) = expand_memory current start adj in
      if keeps_sign && start == minus_one
      then ok (none, record cleaned { active_heap = next; heaps_actual_size = next })
      else (if expanded
          then ok (some s.active_heap, put_heap s₂ s.active_heap (s₂.mem, h))
          else (heap_at cleaned next >>= λ free_heap. ok (
            some next,
            record (put_heap cleaned next (cleaned.mem, init_heap free_heap start adj)) {
              active_heap = next;
            },
          )))

  -- The buffer that a heap gave, or what comes after.
  abbrev pub served_or :
      Manager
      → ℕ
      → Result ManagerFailure (Option ℕ × Manager)
      → Option (ℕ × (Mem × Heap))
      → Result ManagerFailure (Option ℕ × Manager)
  served_or s i rest none = rest
  served_or s i rest (some (ptr, mh)) = ok (some ptr, put_heap s i mh)

  -- The loop of `malloc` over the heaps, in at most so many rounds.
  unfoldable pub malloc_loop :
      ℕ → Manager → ℕ → Option ℕ → Result ManagerFailure (Option ℕ × Manager)
  unfolding heap_at put_heap
  malloc_loop zero s size current = err out_of_rounds
  malloc_loop (suc n) s size none = ok (none, s)
  malloc_loop (suc n) s size (some i) =
      let rest = next_active_heap s >>= λ r. malloc_loop n r.1 size r.0 in
      heap_at s i >>= λ h. served_or s i rest (heap_malloc s.mem h size)

  -- The loop of `malloc` over the buffers that were freed, in at most so many rounds.
  unfoldable pub freed_heaps_loop : ℕ → Manager → ℕ → ℕ → Result ManagerFailure (Option ℕ × Manager)
  unfolding heap_at malloc_from_freed
  freed_heaps_loop zero s size last = err out_of_rounds
  freed_heaps_loop (suc n) s size last = do
    h ← heap_at s s.active_free_heap
    (buffer, m) ← elim (malloc_from_freed s.mem h size) [ err e ↦ err misused | ok r ↦ ok r ]
    let next = add32 s.active_free_heap 1
    let s' = record s {
      mem = m;
      active_free_heap = if next == s.heaps_actual_size then 0 else next;
    }
    let rest = freed_heaps_loop n s' size last
    elim buffer [
      | some ptr ↦ ok (some ptr, record s { mem = m })
      | none ↦ if s'.active_free_heap == last then ok (none, s') else rest
    ]

  -- The first heap of `malloc`, which is made up at the first call.
  unfoldable pub start_heap : Manager → Result ManagerFailure (Option ℕ × Manager)
  unfolding heap_at put_heap
  start_heap s = do
    h ← heap_at s s.active_heap
    let fresh = s.active_heap == 0 && not (is_init h)
    ok (
      some s.active_heap,
      if fresh then put_heap s 0 (s.mem, init_heap h initial_heap initial_heap_size) else s,
    )

  -- `memory_manager::malloc`, with the rounds of its two loops.
  unfoldable pub malloc : ℕ → Manager → ℕ → Result ManagerFailure (Option ℕ × Manager)
  malloc n s size =
      let s₁ =
        if s.heaps_actual_size == 0 then record s { heaps_actual_size = heaps_size } else s in
      let size₁ = adjust_to_mem_block size in
      let started_at =
        if ltb s₁.active_heap s₁.heaps_actual_size then start_heap s₁ else ok (none, s₁) in
      let served = started_at >>= λ (current, s₂).
      malloc_loop n s₂ size₁ current >>= λ (buffer, s₃). elim buffer [
        | some ptr ↦ ok (some ptr, s₃)
        | none ↦ freed_heaps_loop n s₃ size₁ s₃.active_free_heap
      ] in
      if size == 0 then ok (none, s) else served

  -- `memory_manager::realloc`
  unfoldable pub realloc : ℕ → Manager → ℕ → ℕ → Result ManagerFailure (Option ℕ × Manager)
  unfolding free find_heap memmove realloc_in_place put_heap malloc adjust_to_mem_block
  realloc n s ptr size =
      let size₁ = adjust_to_mem_block size in
      let found = if ptr == 0 then none else find_heap s ptr in
      let moved : Manager → ℕ → Result ManagerFailure (Option ℕ × Manager) = λ s₁ orig_ptr_size.
        malloc n s₁ size₁ >>= λ r. elim r.0 [
          | none ↦ ok (none, r.1)
          | some new_alloc ↦
              let copy_size = if ltb size₁ orig_ptr_size then size₁ else orig_ptr_size in
              let copied = record r.1 { mem = memmove r.1.mem new_alloc ptr copy_size } in
              ok (some new_alloc, if ltb 0 copy_size then free copied ptr else r.1)
        ] in
      let resized : Result ManagerFailure (Option ℕ × Manager) = elim found [
        | none ↦ moved s 0
        | some (i, h) ↦
            let (place, (orig_ptr_size, mh)) = realloc_in_place s.mem h ptr size₁ in
            elim place [
              | some p ↦ ok (some p, put_heap s i mh)
              | none ↦ moved (put_heap s i mh) orig_ptr_size
            ]
      ] in
      if size == 0 then ok (none, free s ptr) else resized

  -- `calloc`, which clears the bytes from address 0 on where `malloc` returns none.
  unfoldable pub calloc : ℕ → Manager → ℕ → ℕ → Result ManagerFailure (Option ℕ × Manager)
  unfolding malloc memset_zero
  calloc n s count size =
      let bytes = mul32 count size in
      malloc n s bytes >>= λ (ptr, s').
      ok (ptr, record s' { mem = memset_zero s'.mem (elim ptr [ none ↦ 0 | some p ↦ p ]) bytes })
