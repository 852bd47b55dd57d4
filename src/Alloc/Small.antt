-- ===== src/Alloc/Small.antt =====
-- libraries/eosiolib/malloc/eosio/small_memory_alloc.hpp: freed chunks of fifteen sizes, each
-- size in a list that is linked through the first word of its chunks.
use taurus_cdt.Prelude.{
  ℕ, suc, ◌+◌, ◌^◌, List, [], ◌∷◌, Option, none, some, ltb, leb, ◌==◌, if◌then◌else◌, not, length,
  get_or, set,
}
use taurus_cdt.Alloc.Store.{Mem, store}

-- `_free_list_chunk_size`
abbrev pub free_list_chunk_size : List ℕ
free_list_chunk_size =
    2 ^ 6
    ∷ 2 ^ 7
    ∷ 2 ^ 8
    ∷ 2 ^ 9
    ∷ 2 ^ 10
    ∷ 2 ^ 11
    ∷ 2 ^ 12
    ∷ 2 ^ 13
    ∷ 2 ^ 14
    ∷ 2 ^ 15
    ∷ 2 ^ 16
    ∷ 2 ^ 17
    ∷ 2 ^ 18
    ∷ 2 ^ 19
    ∷ 2 ^ 20
    ∷ []

-- The heads of the lists. A head of 0 is an empty list.
abbrev pub init_free_lists : List ℕ
init_free_lists = 0 ∷ 0 ∷ 0 ∷ 0 ∷ 0 ∷ 0 ∷ 0 ∷ 0 ∷ 0 ∷ 0 ∷ 0 ∷ 0 ∷ 0 ∷ 0 ∷ 0 ∷ []

unfoldable pub find_from : ℕ → List ℕ → ℕ → Option ℕ × ℕ
find_from i [] sz = (none, sz)
find_from i (c ∷ cs) sz = if leb sz c then (some i, c) else find_from (suc i) cs sz

-- The index of the list and the rounded size; `none` stands for -1.
unfoldable pub find_small_mem_size : ℕ → Option ℕ × ℕ
unfolding find_from
find_small_mem_size sz = find_from 0 free_list_chunk_size sz

-- The chunk (0 if the list is empty), the memory and the lists.
unfoldable pub allocate_from_free_list : ℕ → ℕ → Mem → List ℕ → ℕ × Mem × List ℕ
unfolding store
allocate_from_free_list id sz m lists =
    let cur = get_or lists id 0 in
    if not (cur == 0)
    then (cur, store (store m cur id) (cur + 4) sz, set lists id (m cur))
    else (0, m, lists)

-- `id` is the word that holds an `int`: a negative one is above every index.
unfoldable pub add_to_freelist : ℕ → ℕ → Mem → List ℕ → Mem × List ℕ
unfolding store
add_to_freelist ptr id m lists =
    if ltb id (length lists)
    then (store m ptr (get_or lists id 0), set lists id ptr)
    else (m, lists)
