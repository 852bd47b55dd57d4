-- ===== src/Alloc/Owners.antt =====
-- What the allocator holds of the memory: the free lists as lists of chunks, the blocks that are
-- in use, and how many of them hold an address.
use taurus_cdt.Prelude.{
  ℕ, zero, suc, ◌+◌, ◌-◌, ◌*◌, ◌%◌, ◌^◌, ◌≤◌, ◌<◌, ◌≡◌, ◌≢◌, List, [], ◌∷◌, ◌++◌, Option, none,
  some, length, get_elem?, set, All, arith, Bool, true,
}
use taurus_cdt.Alloc.Store.{Mem}
use taurus_cdt.Alloc.Small.{free_list_chunk_size}
use taurus_cdt.Alloc.Big.Ownership.{inside, owned, Fits}
use taurus_cdt.Alloc.Dsmalloc.{Dsmalloc, id_word}

-- A linked list of chunks in memory, from its head on.
abbrev pub Chain : Mem → ℕ → List ℕ → Type 0
Chain m h [] = h ≡ 0
Chain m h (x ∷ xs) = (h ≡ x) × (x ≢ 0) × Chain m (m x) xs

abbrev pub Chains : Mem → List ℕ → List (List ℕ) → Type 0
Chains m [] [] = Unit {0}
Chains m [] (xs ∷ xss) = ⊥
Chains m (h ∷ hs) [] = ⊥
Chains m (h ∷ hs) (xs ∷ xss) = Chain m h xs × Chains m hs xss

-- How many of the chunks of `c` bytes hold the address `a`.
unfoldable pub owned_list : ℕ → ℕ → List ℕ → ℕ
unfolding inside
owned_list a c [] = 0
owned_list a c (x ∷ xs) = inside a x c + owned_list a c xs

unfoldable pub owned_small : ℕ → List ℕ → List (List ℕ) → ℕ
unfolding owned_list
owned_small a [] xss = 0
owned_small a (c ∷ cs) [] = 0
owned_small a (c ∷ cs) (xs ∷ xss) = owned_list a c xs + owned_small a cs xss

-- A block in use: its header's address, its free list and its size with the header.
pub record Block : Type 0 where
  pub header : ℕ
  pub id : Option ℕ
  pub size : ℕ

unfoldable pub owned_live : ℕ → List Block → ℕ
unfolding inside
owned_live a [] = 0
owned_live a (b ∷ bs) = inside a b.header b.size + owned_live a bs

-- The size goes with the free list.
abbrev pub Sized : Option ℕ → ℕ → Type 0
Sized none sz = Unit {0}
Sized (some i) sz = get_elem? free_list_chunk_size i ≡ some sz

-- The header is intact, and the block lies in the lower half of the address space.
pub record Tagged (m : Mem) (b : Block) : Type 0 where
  pub tag : m b.header ≡ id_word b.id
  pub length_word : m (b.header + 4) ≡ b.size
  pub sized : Sized b.id b.size
  pub holds_header : 16 ≤ b.size
  pub not_null : 0 < b.header
  pub ends : b.header + b.size < 2 ^ 31

-- 33 MB, the most that the host grants.
abbrev pub max_pages : ℕ
max_pages = 528

-- The allocator's state, beside the blocks in use and the chunks in the free lists: every address
-- from `base` to `last_ptr` has at most one owner, and no other address has one.
pub record Inv (base : ℕ) (s : Dsmalloc) (live : List Block) (frees : List (List ℕ)) : Type 0 where
  pub count : length s.free_lists ≡ 15
  pub chains : Chains s.mem s.free_lists frees
  pub tagged : All (Tagged s.mem) live
  pub fits : All Fits s.bigchunks
  pub once :
      (a : ℕ)
      → owned a s.bigchunks + owned_small a free_list_chunk_size frees + owned_live a live
        ≤ inside a base (s.last_ptr - base)
  pub base_pos : 0 < base
  pub base_le : base ≤ s.last_ptr
  pub aligned : s.last_ptr % 16 ≡ 0
  pub in_page : s.last_ptr < s.next_page * 2 ^ 16
  pub synced : s.pages ≡ s.next_page
  pub granted : s.next_page ≤ max_pages

-- What is known of the host: it never grants more than the 33 MB.
abbrev pub Limited : (ℕ → ℕ → Bool) → Type 0
Limited can_grow = (p d : ℕ) → can_grow p d ≡ true → p + d ≤ max_pages

-- A block in use begins behind `base`, and a chunk in a free list owns its first byte.
pub inside_self : (p n : ℕ) → 0 < n → inside p p n ≡ 1
unfolding inside
inside_self p n h = ground arith

pub owned_live-append :
    (a : ℕ) (xs ys : List Block) → owned_live a (xs ++ ys) ≡ owned_live a xs + owned_live a ys
unfolding owned_live
owned_live-append a [] ys = omega arith
owned_live-append a (x ∷ xs) ys = omega (arith, owned_live-append a xs ys)

pub owned_small-set :
    (a i c : ℕ) (cs : List ℕ) (xss : List (List ℕ)) (xs ys : List ℕ)
    → get_elem? cs i ≡ some c
    → get_elem? xss i ≡ some xs
    → owned_small a cs (set xss i ys) + owned_list a c xs ≡ owned_small a cs xss + owned_list a c ys
unfolding owned_small
owned_small-set a i c [] xss xs ys e f = cc
owned_small-set a i c (d ∷ cs) [] xs ys e f = cc
owned_small-set a zero c (d ∷ cs) (zs ∷ xss) xs ys e f = ground arith
owned_small-set a (suc i) c (d ∷ cs) (zs ∷ xss) xs ys e f =
    omega (arith, owned_small-set a i c cs xss xs ys e f)
