-- ===== src/Alloc/Tests.antt =====
-- Runs of the allocator of simple_malloc.cpp, and the theorems at concrete inputs.
use taurus_cdt.Prelude.{
  ℕ, ◌+◌, ◌*◌, ◌^◌, ◌≤◌, ◌<◌, ◌≡◌, refl, List, [], ◌∷◌, ◌++◌, Bool, false, leb, ok, err, some,
  arith,
}
use taurus_cdt.Alloc.Store.{Mem}
use taurus_cdt.Alloc.Big.{no_chunk, add_to_bigchunk}
use taurus_cdt.Alloc.Big.Ownership.{inside, owned}
use taurus_cdt.Alloc.Big.NoLeak.{owned-add_free}
use taurus_cdt.Alloc.Dsmalloc.{
  failed_to_allocate_pages, Dsmalloc, init, align, write_header, pages_for,
}
use taurus_cdt.Alloc.Libc.{malloc, memset_zero, release}
use taurus_cdt.Alloc.Owners.{Inv, Block, Limited, owned_live, max_pages}
use taurus_cdt.Alloc.Start.{init-Inv, no_lists}
use taurus_cdt.Alloc.Allocate.{Serves, rounded, malloc-Serves, malloc_fresh}
use taurus_cdt.Alloc.Exhausted.{Exhausted}
use taurus_cdt.Alloc.Release.{release-Inv}
use taurus_cdt.Alloc.Invariant.{fresh_block, fresh-Inv}

-- A host that grants up to 33 MB.
abbrev host : ℕ → ℕ → Bool
host p d = leb (p + d) max_pages

host-Limited : Limited host
host-Limited p d h = ground arith

abbrev zeros : Mem
zeros a = 0

-- A heap from 4096 on, in a memory of one page.
abbrev start : Dsmalloc
unfolding init
start = init zeros 4096 1

start-Inv : Inv 4096 start [] no_lists
unfolding init
start-Inv = init-Inv zeros 4096 1 (omega arith) (omega arith) (omega arith) (omega arith)

init-Inv_example : Inv 4096 (init zeros 4096 1) [] no_lists
init-Inv_example = init-Inv zeros 4096 1 (omega arith) (omega arith) (omega arith) (omega arith)

-- After one request of 100 bytes.
abbrev first : Block
first = record { header = 4096; id = some 1; size = 128 }

abbrev held : Dsmalloc
held = record start { mem = write_header zeros 4096 (some 1) 128; last_ptr = 4224 }

malloc_first : malloc host start 100 ≡ ok (4112, held)
unfolding malloc init write_header
malloc_first = refl

held-Inv : Inv 4096 held (first ∷ []) no_lists
unfolding fresh_block init pages_for align
held-Inv =
    fresh-Inv host host-Limited 4096 start [] no_lists start-Inv (some 1) 128
      (record {
        sized = refl;
        holds_header = omega arith;
        aligned = omega arith;
        moderate = omega arith;
      })
      refl

malloc-Serves_example :
    Serves 4096
      (first ∷ [])
      (rounded host host-Limited 4096 held
        (first ∷ [])
        no_lists
        held-Inv
        20
        (omega arith)
        (omega arith))
      (malloc host held 20)
malloc-Serves_example =
    malloc-Serves host host-Limited 4096 held (first ∷ []) no_lists held-Inv 20 (omega arith)
      (omega arith)

malloc_fresh_example : (owned_live 4211 [] ≡ 0) × (4096 ≤ 4211) × (4211 < held.pages * 2 ^ 16)
unfolding init
malloc_fresh_example =
    malloc_fresh host host-Limited 4096 start [] no_lists start-Inv 100 (omega arith) (omega arith)
      4112 held malloc_first 4211 (omega arith) (omega arith)

release-Inv_example :
    (frees' : List (List ℕ)) × Inv 4096 (release held (first.header + 16)) ([] ++ []) frees'
release-Inv_example = release-Inv 4096 held [] [] first no_lists held-Inv

owned-add_free_example :
    owned 70 (add_to_bigchunk 64 32 (no_chunk ∷ [])) ≡ owned 70 (no_chunk ∷ []) + inside 70 64 32
owned-add_free_example = owned-add_free 70 64 32 (no_chunk ∷ []) 0 (omega arith) (omega arith) refl

-- The last of the five bytes lies in the word at 4, of which the other bytes stay.
memset_five : memset_zero (λ a. 67305985) 0 5 4 ≡ 67305984
unfolding memset_zero
memset_five = refl

-- A host that grants nothing more.
abbrev refuses : ℕ → ℕ → Bool
refuses p d = false

refused_first : malloc refuses start 100 ≡ err failed_to_allocate_pages
unfolding malloc init
refused_first = refl
