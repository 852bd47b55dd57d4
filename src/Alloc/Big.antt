-- ===== src/Alloc/Big.antt =====
-- libraries/eosiolib/malloc/eosio/big_memory_alloc.hpp: up to 32 freed chunks of any size.
pub mod Ownership
pub mod NoLeak
use taurus_cdt.Prelude.{
  ℕ, zero, suc, ◌+◌, ◌-◌, List, [], ◌∷◌, ltb, leb, ◌==◌, if◌then◌else◌, not, ◌&&◌, get_or, set,
  add32,
}

-- `bigchunk_t`
pub record BigChunk : Type 0 where
  pub ptr : ℕ
  pub capacity : ℕ

abbrev pub no_chunk : BigChunk
no_chunk = record { ptr = 0; capacity = 0 }

abbrev pub chunks_of : ℕ → List BigChunk
chunks_of zero = []
chunks_of (suc n) = no_chunk ∷ chunks_of n

abbrev pub max_bigchunk_items : ℕ
max_bigchunk_items = 32

-- The memory taken (0 for `nullptr`), and the chunks. The scan is `std::find_if`.
unfoldable pub alloc_from_bigchunk : ℕ → List BigChunk → ℕ × List BigChunk
alloc_from_bigchunk sz [] = (0, [])
alloc_from_bigchunk sz (c ∷ cs) =
    let (ret, cs') = alloc_from_bigchunk sz cs in
    if not (c.ptr == 0) && leb sz c.capacity
    then (c.ptr, record { ptr = add32 c.ptr sz; capacity = c.capacity - sz } ∷ cs)
    else (ret, c ∷ cs')

-- The variables of the loop of `add_to_bigchunk`, with the chunks that it leaves behind.
pub record Scan : Type 0 where
  pub freed_mem : ℕ
  pub capacity : ℕ
  pub smallest_idx : ℕ
  pub smallest_cap : ℕ

-- The two tests for a neighbour, for the chunk `c`: the scan and the chunk after them.
unfoldable pub merge_chunk : BigChunk → Scan → Scan × BigChunk
merge_chunk c s =
    if not (c.ptr == 0)
    then (if add32 c.ptr c.capacity == s.freed_mem
        then (record s { freed_mem = c.ptr; capacity = add32 s.capacity c.capacity }, no_chunk)
        else if add32 s.freed_mem s.capacity == c.ptr
        then (record s { capacity = add32 s.capacity c.capacity }, no_chunk)
        else (s, c))
    else (s, c)

-- The search for the smallest chunk, after the merge.
unfoldable pub note_smallest : ℕ → BigChunk → Scan → Scan
note_smallest i c s =
    if ltb c.capacity s.smallest_cap
    then record s { smallest_cap = c.capacity; smallest_idx = i }
    else s

unfoldable pub scan_chunks : ℕ → List BigChunk → Scan → Scan × List BigChunk
unfolding merge_chunk note_smallest
scan_chunks i [] s = (s, [])
scan_chunks i (c ∷ cs) s =
    let (s', c') = merge_chunk c s in
    let (t, cs') = scan_chunks (suc i) cs (note_smallest i c' s') in (t, c' ∷ cs')

unfoldable pub add_to_bigchunk : ℕ → ℕ → List BigChunk → List BigChunk
unfolding scan_chunks
add_to_bigchunk freed_mem capacity cs =
    let (s, cs') = scan_chunks 0 cs (record {
      freed_mem = freed_mem;
      capacity = capacity;
      smallest_idx = 0;
      smallest_cap = (get_or cs 0 no_chunk).capacity;
    }) in
    if ltb s.smallest_cap s.capacity
    then set cs' s.smallest_idx (record { ptr = s.freed_mem; capacity = s.capacity })
    else cs'
