-- ===== src/Alloc/Exhausted.antt =====
-- When `malloc` of libraries/eosiolib/simple_malloc.cpp fails: `alloc_from_freed` and the paths of
-- `operator()` together.
use taurus_cdt.Prelude.{
  ℕ, ◌+◌, ◌*◌, ◌/◌, ◌^◌, ◌<◌, ◌≡◌, ◌⊎◌, List, [], Option, none, some, get_elem?, All, Bool, false,
  leb, if◌then◌else◌,
}
use taurus_cdt.Alloc.Small.{find_small_mem_size}
use taurus_cdt.Alloc.Dsmalloc.{Dsmalloc}

-- The free list and the size for a request of `n` bytes: with a header, in whole units of 16 bytes.
abbrev pub wanted : ℕ → Option ℕ × ℕ
wanted n = find_small_mem_size ((n + 31) / 16 * 16)

-- The pages asked for `sz` bytes from the end of what is used: one for each full 64 KB, and one more where the bytes
-- reach beyond those and the pages that are granted.
abbrev pub asked : Dsmalloc → ℕ → ℕ
asked s sz =
    sz / 2 ^ 16 + (if leb ((s.pages + sz / 2 ^ 16) * 2 ^ 16) (s.last_ptr + sz) then 1 else 0)

abbrev pub Listless : Option ℕ → List (List ℕ) → Type 0
Listless none frees = Unit {0}
Listless (some i) frees = get_elem? frees i ≡ some []

-- Nothing is left for a block of the size: its free list is empty, the host refuses the pages, and
-- no freed big chunk is large enough.
pub record Exhausted (can_grow : ℕ → ℕ → Bool) (s : Dsmalloc) (frees : List (List ℕ))
    (id : Option ℕ) (sz : ℕ) : Type 0 where
  pub no_list : Listless id frees
  pub refused : can_grow s.pages (asked s sz) ≡ false
  pub too_small : All (λ c. (c.ptr ≡ 0) ⊎ (c.capacity < sz)) s.bigchunks
