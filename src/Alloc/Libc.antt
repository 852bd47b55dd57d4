-- ===== src/Alloc/Libc.antt =====
-- `dsmalloc::free` and the C functions of libraries/eosiolib/simple_malloc.cpp: malloc,
-- posix_memalign, calloc, realloc, free and the two switches of `free`.
use taurus_cdt.Prelude.{
  ℕ, ◌+◌, ◌-◌, ◌*◌, ◌/◌, ◌%◌, ◌^◌, Bool, true, false, ltb, leb, ◌==◌, if◌then◌else◌, not, ◌&&◌,
  ◌||◌, Result, ok, ◌>>=◌, sub32, mul32,
}
use Prim.Native.Nat.{bit_and}
use taurus_cdt.Alloc.Store.{Mem}
use taurus_cdt.Alloc.Small.{add_to_freelist}
use taurus_cdt.Alloc.Big.{add_to_bigchunk}
use taurus_cdt.Alloc.Dsmalloc.{Dsmalloc, Failure, allocate, free_list_meta_size}

-- The first `k` bytes of the word `w`, and the others as in `old`: a word has 4, the lowest first.
unfoldable pub first_bytes : ℕ → ℕ → ℕ → ℕ
first_bytes k w old = if leb 4 k then w else w % 2 ^ (8 * k) + old / 2 ^ (8 * k) * 2 ^ (8 * k)

-- The standard `memset( p, 0, n )` and `memmove( dst, src, n )`, which may end inside a word.
unfoldable pub memset_zero : Mem → ℕ → ℕ → Mem
unfolding first_bytes
memset_zero m p n = λ b. if leb p b && ltb b (p + n) then first_bytes (p + n - b) 0 (m b) else m b

unfoldable pub memmove : Mem → ℕ → ℕ → ℕ → Mem
unfolding first_bytes
memmove m dst src n = λ b.
    if leb dst b && ltb b (dst + n)
    then first_bytes (dst + n - b) (m (b - dst + src)) (m b)
    else m b

-- `(int)ptr >= free_list_meta_size`
unfoldable pub has_header : ℕ → Bool
has_header ptr = leb free_list_meta_size ptr && ltb ptr (2 ^ 31)

-- The number of free lists.
abbrev pub free_list_count : ℕ
free_list_count = 15

unfoldable pub give_back_small : Dsmalloc → ℕ → ℕ → Dsmalloc
unfolding add_to_freelist
give_back_small s ptr id =
    let (m, lists) = add_to_freelist ptr id s.mem s.free_lists in
    record s { mem = m; free_lists = lists }

unfoldable pub give_back_big : Dsmalloc → ℕ → Dsmalloc
unfolding add_to_bigchunk
give_back_big s ptr = record s { bigchunks = add_to_bigchunk ptr (s.mem (ptr + 4)) s.bigchunks }

-- `dsmalloc::free`
unfoldable pub release : Dsmalloc → ℕ → Dsmalloc
unfolding has_header give_back_small give_back_big
release s ptr =
    let p = ptr - free_list_meta_size in
    if has_header ptr
    then (if ltb (s.mem p) free_list_count
        then give_back_small s p (s.mem p)
        else give_back_big s p)
    else s

unfoldable pub eosio_malloc_enable_free : Dsmalloc → Dsmalloc
eosio_malloc_enable_free s = record s { free_enabled = true }

unfoldable pub eosio_malloc_disable_free : Dsmalloc → Dsmalloc
eosio_malloc_disable_free s = record s { free_enabled = false }

unfoldable pub free : Dsmalloc → ℕ → Dsmalloc
unfolding release
free s ptr = if s.free_enabled then release s ptr else s

abbrev pub einval : ℕ
einval = 22

module _ (can_grow : ℕ → ℕ → Bool) where
  unfoldable pub malloc : Dsmalloc → ℕ → Result Failure (ℕ × Dsmalloc)
  unfolding allocate
  malloc s size = allocate can_grow s size 16

  -- The alignment reaches `operator()` as a `uint8_t`. The result is the error code with `*memptr`.
  unfoldable pub posix_memalign : Dsmalloc → ℕ → ℕ → ℕ → Result Failure (ℕ × ℕ × Dsmalloc)
  unfolding allocate
  posix_memalign s memptr alignment size =
      let a = if ltb 16 alignment then alignment else 16 in
      if ltb alignment 4 || not (bit_and alignment (sub32 alignment 1) == 0)
      then ok (einval, memptr, s)
      else (allocate can_grow s size (a % 2 ^ 8) >>= λ r. ok (0, r.0, r.1))

  unfoldable pub zeroed : ℕ → ℕ × Dsmalloc → ℕ × Dsmalloc
  unfolding memset_zero
  zeroed n (ptr, s) =
      if not (ptr == 0) then (ptr, record s { mem = memset_zero s.mem ptr n }) else (0, s)

  unfoldable pub calloc : Dsmalloc → ℕ → ℕ → Result Failure (ℕ × Dsmalloc)
  unfolding allocate zeroed
  calloc s count size =
      allocate can_grow s (mul32 count size) 16 >>= λ r. ok (zeroed (mul32 count size) r)

  unfoldable pub moved : ℕ → ℕ → ℕ × Dsmalloc → ℕ × Dsmalloc
  unfolding memmove free
  moved ptr size (result, s) =
      if not (result == 0)
      then (result, free (record s { mem = memmove s.mem result ptr size }) ptr)
      else (0, s)

  unfoldable pub realloc : Dsmalloc → ℕ → ℕ → Result Failure (ℕ × Dsmalloc)
  unfolding allocate moved has_header
  realloc s ptr size =
      let sz = s.mem (ptr - free_list_meta_size + 4) in
      if has_header ptr && leb size (sub32 sz free_list_meta_size)
      then ok (ptr, s)
      else (allocate can_grow s size 16 >>= λ r. ok (moved ptr size r))
