-- ===== src/Alloc/Limits.antt =====
-- Requests that the allocator of simple_malloc.cpp serves with too little memory, or at the wrong
-- place: the size and the alignment are narrowed without a test.
use taurus_cdt.Prelude.{
  ℕ, ◌+◌, ◌-◌, ◌%◌, ◌^◌, ◌≤◌, ◌<◌, ◌≡◌, refl, sym, ◌∙◌, Bool, true, false, some, ok, ◌>>=◌, arith,
  add32, sub32, ltb, ◌==◌,
}
use Prim.Native.Nat.{bit_and}
use taurus_cdt.Alloc.Store.{store, store_self}
use taurus_cdt.Alloc.Small.{find_small_mem_size}
use taurus_cdt.Alloc.Dsmalloc.{
  Dsmalloc, allocate, align, is_listed, alloc_sized, alloc_fresh, pages_for, write_header, id_word,
}
use taurus_cdt.Alloc.Libc.{malloc, posix_memalign}

wrapped : (n : ℕ) → 2 ^ 32 - 16 ≤ n → n < 2 ^ 32 → align (add32 n 16) 16 ≤ 16
unfolding align
wrapped n lo hi = omega arith

small_request : (sz : ℕ) → sz ≤ 64 → find_small_mem_size sz ≡ (some 0, 64)
unfolding find_small_mem_size
small_request sz h = ground arith

allocate_small :
    (can_grow : ℕ → ℕ → Bool) (s : Dsmalloc) (n a : ℕ)
    → 0 < n
    → align (add32 n 16) a ≤ 64
    → allocate can_grow s n a ≡ alloc_sized can_grow s (some 0) 64 a
unfolding allocate
allocate_small can_grow s n a p h =
    let z : (n == 0) ≡ false = ground arith in rw (small_request (align (add32 n 16) a) h, z)

-- A request of the last sixteen sizes below 4 GB is served as if it were for one byte: the
-- addition of the header's size wraps around.
pub malloc_wraps :
    (can_grow : ℕ → ℕ → Bool) (s : Dsmalloc) (n : ℕ)
    → 2 ^ 32 - 16 ≤ n
    → n < 2 ^ 32
    → malloc can_grow s n ≡ malloc can_grow s 1
unfolding malloc
malloc_wraps can_grow s n lo hi =
    allocate_small can_grow s n 16 (omega arith) (omega (arith, wrapped n lo hi))
    ∙ sym (allocate_small can_grow s 1 16 (omega arith) (unfold align in omega arith))

memalign_eq :
    (can_grow : ℕ → ℕ → Bool) (s : Dsmalloc) (memptr alignment size : ℕ)
    → 16 < alignment
    → bit_and alignment (sub32 alignment 1) ≡ 0
    → posix_memalign can_grow s memptr alignment size
      ≡ (allocate can_grow s size (alignment % 2 ^ 8) >>= λ r. ok (0, r.0, r.1))
unfolding posix_memalign
memalign_eq can_grow s memptr alignment size h b =
    let x : ltb 16 alignment ≡ true = ground arith in
    let y : ltb alignment 4 ≡ false = ground arith in rw (x, y, b)

align_zero : (x : ℕ) → align x 0 ≡ 0
unfolding align
align_zero x = omega arith

unlisted :
    (can_grow : ℕ → ℕ → Bool) (s : Dsmalloc) (sz a : ℕ)
    → is_listed s (some 0) ≡ false
    → alloc_sized can_grow s (some 0) sz a ≡ alloc_fresh can_grow s (some 0) sz a
unfolding alloc_sized
unlisted can_grow s sz a l = rw l

abbrev fresh : Dsmalloc → ℕ → ℕ → Dsmalloc
fresh s sz last = record s {
  mem = write_header s.mem s.last_ptr (some 0) sz;
  last_ptr = last;
  next_page = add32 s.next_page (pages_for s.next_page sz last);
  pages = s.pages + pages_for s.next_page sz last;
}

fresh_eq :
    (can_grow : ℕ → ℕ → Bool) (s : Dsmalloc) (sz a last : ℕ)
    → align (add32 s.last_ptr sz) a ≡ last
    → can_grow s.pages (pages_for s.next_page sz last) ≡ true
    → alloc_fresh can_grow s (some 0) sz a ≡ ok (add32 s.last_ptr 16, fresh s sz last)
unfolding alloc_fresh
fresh_eq can_grow s sz a last e g = rw (e, g)

-- An alignment of 256 or more becomes 0 on its way to `operator()`. Then any request takes 64
-- bytes, and when they come from fresh memory the allocator starts again at address 0.
pub posix_memalign_resets :
    (can_grow : ℕ → ℕ → Bool) (s : Dsmalloc) (memptr alignment size : ℕ)
    → 0 < size
    → 256 ≤ alignment
    → alignment % 2 ^ 8 ≡ 0
    → bit_and alignment (sub32 alignment 1) ≡ 0
    → is_listed s (some 0) ≡ false
    → can_grow s.pages (pages_for s.next_page 64 0) ≡ true
    → (s' : Dsmalloc) × (posix_memalign can_grow s memptr alignment size
        ≡ ok (0, add32 s.last_ptr 16, s'))
      × (s'.last_ptr ≡ 0)
      × (s'.mem (s.last_ptr + 4) ≡ 64)
unfolding write_header
posix_memalign_resets can_grow s memptr alignment size p big low pow l g =
    let e = memalign_eq can_grow s memptr alignment size (omega arith) pow in
    let f = allocate_small can_grow s size 0 p (omega (arith, align_zero (add32 size 16))) in
    let h = fresh_eq can_grow s 64 0 0 (align_zero (add32 s.last_ptr 64)) g in
    (
      fresh s 64 0,
      e ∙ rw (low, f, unlisted can_grow s 64 0 l, h),
      refl,
      store_self (store s.mem s.last_ptr (id_word (some 0))) (s.last_ptr + 4) 64,
    )
