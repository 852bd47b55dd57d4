-- ===== src/Alloc/Start.antt =====
-- The allocator of simple_malloc.cpp as its constructor leaves it, and what a contract may write.
use taurus_cdt.Prelude.{
  ℕ, zero, suc, ◌+◌, ◌*◌, ◌%◌, ◌^◌, ◌≤◌, ◌<◌, ◌≡◌, refl, List, [], ◌∷◌, All, arith,
}
use taurus_cdt.Alloc.Store.{Mem, store}
use taurus_cdt.Alloc.Small.{free_list_chunk_size}
use taurus_cdt.Alloc.Big.{chunks_of}
use taurus_cdt.Alloc.Big.Ownership.{inside, owned, Fits}
use taurus_cdt.Alloc.Dsmalloc.{Dsmalloc, init}
use taurus_cdt.Alloc.Owners.{owned_small, Block, owned_live, Inv, max_pages}
use taurus_cdt.Alloc.Frame.{store-Chains, store-Tagged, store-All-Tagged}

owned-chunks_of : (a n : ℕ) → owned a (chunks_of n) ≡ 0
unfolding owned
owned-chunks_of a zero = refl
owned-chunks_of a (suc n) = ground (arith, owned-chunks_of a n)

chunks_of-Fits : (n : ℕ) → All Fits (chunks_of n)
chunks_of-Fits zero = tt
chunks_of-Fits (suc n) = (omega arith, chunks_of-Fits n)

abbrev pub no_lists : List (List ℕ)
no_lists = [] ∷ [] ∷ [] ∷ [] ∷ [] ∷ [] ∷ [] ∷ [] ∷ [] ∷ [] ∷ [] ∷ [] ∷ [] ∷ [] ∷ [] ∷ []

-- The constructor establishes the invariant with no block in use, for a heap that begins on a
-- 16-byte boundary other than address 0, below the end of the memory that the host has granted, which is at most 33 MB.
pub init-Inv :
    (m : Mem) (heap_base current_memory : ℕ)
    → 0 < heap_base
    → heap_base % 16 ≡ 0
    → heap_base < current_memory * 2 ^ 16
    → current_memory ≤ max_pages
    → Inv heap_base (init m heap_base current_memory) [] no_lists
unfolding init owned_live owned_small
init-Inv m heap_base current_memory p al h k = record {
  count = refl;
  chains = omega arith;
  tagged = tt;
  fits = chunks_of-Fits 32;
  once = λ a. omega (arith, owned-chunks_of a 32);
  base_pos = p;
  base_le = omega arith;
  aligned = al;
  in_page = h;
  synced = refl;
  granted = k;
}

payload_free :
    (a base m x y z p n : ℕ)
    → p + 16 ≤ a
    → a < p + n
    → x + y + (inside a p n + z) ≤ inside a base m
    → (y ≡ 0) × (z ≡ 0)
unfolding inside
payload_free a base m x y z p n lo hi o = ground arith

-- In a state that satisfies the invariant, a contract that writes a word behind the header of a block in use, and inside the block, leaves
-- the invariant as it is.
pub write-Inv :
    (base : ℕ) (s : Dsmalloc) (b : Block) (live : List Block) (frees : List (List ℕ)) (a w : ℕ)
    → Inv base s (b ∷ live) frees
    → b.header + 16 ≤ a
    → a < b.header + b.size
    → Inv base (record s { mem = store s.mem a w }) (b ∷ live) frees
unfolding owned_live
write-Inv base s b live frees a w v lo hi =
    let (small, others) = payload_free a base _ _ _ _ b.header b.size lo hi (v.once a) in
    record {
      count = v.count;
      chains =
          store-Chains s.mem a w free_list_chunk_size s.free_lists frees (omega arith)
            (omega (arith, v.count)) small v.chains;
      tagged = (
        store-Tagged s.mem a w b (omega arith) (omega arith) v.tagged.0,
        store-All-Tagged s.mem a w live others v.tagged.1,
      );
      fits = v.fits;
      once = v.once;
      base_pos = v.base_pos;
      base_le = v.base_le;
      aligned = v.aligned;
      in_page = v.in_page;
      synced = v.synced;
      granted = v.granted;
    }
