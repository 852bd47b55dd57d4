-- ===== src/Alloc/Frame.antt =====
-- Writes of the allocator leave alone what does not own the address: the lemmas behind the
-- invariant of simple_malloc.cpp.
use taurus_cdt.Prelude.{
  ℕ, zero, suc, ◌+◌, ◌^◌, ◌≤◌, ◌<◌, ◌≡◌, ◌≢◌, ◌∙◌, refl, List, [], ◌∷◌, Option, some, get_elem?,
  get_or, set, All, arith, length,
}
use taurus_cdt.Alloc.Store.{Mem, store, store_ne}
use taurus_cdt.Alloc.Small.{free_list_chunk_size}
use taurus_cdt.Alloc.Big.Ownership.{inside}
use taurus_cdt.Alloc.Dsmalloc.{id_word, write_header}
use taurus_cdt.Alloc.Owners.{
  Chain, Chains, owned_list, owned_small, Block, owned_live, Tagged, Sized,
}

-- A chunk that does not own the address does not begin there, nor four bytes before it.
start_ne : (a p n : ℕ) → inside a p n ≡ 0 → 0 < n → a ≢ p
unfolding inside
start_ne a p n h k = ground arith

size_ne : (a p n : ℕ) → inside a p n ≡ 0 → 4 < n → a ≢ p + 4
unfolding inside
size_ne a p n h k = ground arith

pub store-Chain :
    (m : Mem) (a w c h : ℕ) (xs : List ℕ)
    → 0 < c
    → owned_list a c xs ≡ 0
    → Chain m h xs
    → Chain (store m a w) h xs
unfolding owned_list
store-Chain m a w c h [] k o ch = ch
store-Chain m a w c h (x ∷ xs) k o (e, n, ch) = (
  e,
  n,
  rw (store_ne m a w x (start_ne a x c (omega arith) k))
      (store-Chain m a w c (m x) xs k (omega arith) ch),
)

pub store-Chains :
    (m : Mem) (a w : ℕ) (cs hs : List ℕ) (xss : List (List ℕ))
    → All (λ c. 0 < c) cs
    → length hs ≤ length cs
    → owned_small a cs xss ≡ 0
    → Chains m hs xss
    → Chains (store m a w) hs xss
unfolding owned_small
store-Chains m a w cs [] [] k l o ch = tt
store-Chains m a w cs [] (xs ∷ xss) k l o ch = ch
store-Chains m a w cs (h ∷ hs) [] k l o ch = ch
store-Chains m a w [] (h ∷ hs) (xs ∷ xss) k l o ch = absurd (omega arith)
store-Chains m a w (c ∷ cs) (h ∷ hs) (xs ∷ xss) (k, ks) l o (ch, chs) = (
  store-Chain m a w c h xs k (omega arith) ch,
  store-Chains m a w cs hs xss ks (omega arith) (omega arith) chs,
)

pub store-Tagged :
    (m : Mem) (a w : ℕ) (b : Block)
    → a ≢ b.header
    → a ≢ b.header + 4
    → Tagged m b
    → Tagged (store m a w) b
store-Tagged m a w b h k t = record {
  tag = store_ne m a w b.header h ∙ t.tag;
  length_word = store_ne m a w (b.header + 4) k ∙ t.length_word;
  sized = t.sized;
  holds_header = t.holds_header;
  not_null = t.not_null;
  ends = t.ends;
}

pub store-All-Tagged :
    (m : Mem) (a w : ℕ) (bs : List Block)
    → owned_live a bs ≡ 0
    → All (Tagged m) bs
    → All (Tagged (store m a w)) bs
unfolding owned_live
store-All-Tagged m a w [] o t = tt
store-All-Tagged m a w (b ∷ bs) o (t, ts) = (
  store-Tagged m a w b (start_ne a b.header b.size (omega arith) (omega (arith, t.holds_header)))
      (size_ne a b.header b.size (omega arith) (omega (arith, t.holds_header))) t,
  store-All-Tagged m a w bs (omega arith) ts,
)

-- A list with a head that is not null has a first chunk.
pub Chains-get :
    (m : Mem) (hs : List ℕ) (xss : List (List ℕ)) (i : ℕ)
    → i < length hs
    → Chains m hs xss
    → (xs : List ℕ) × (get_elem? xss i ≡ some xs) × Chain m (get_or hs i 0) xs
Chains-get m [] xss i h ch = absurd (omega arith)
Chains-get m (h ∷ hs) [] i k ch = absurd ch
Chains-get m (h ∷ hs) (xs ∷ xss) zero k ch = (xs, refl, ch.0)
Chains-get m (h ∷ hs) (xs ∷ xss) (suc i) k ch = Chains-get m hs xss i (omega arith) ch.1

pub Chains-set :
    (m : Mem) (hs : List ℕ) (xss : List (List ℕ)) (i h : ℕ) (xs : List ℕ)
    → Chains m hs xss
    → Chain m h xs
    → Chains m (set hs i h) (set xss i xs)
Chains-set m [] [] i h xs ch c = tt
Chains-set m [] (ys ∷ xss) i h xs ch c = absurd ch
Chains-set m (k ∷ hs) [] i h xs ch c = absurd ch
Chains-set m (k ∷ hs) (ys ∷ xss) zero h xs ch c = (c, ch.1)
Chains-set m (k ∷ hs) (ys ∷ xss) (suc i) h xs ch c = (ch.0, Chains-set m hs xss i h xs ch.1 c)

-- Writing a header into memory that nothing owns.
module _ (m : Mem) (ret : ℕ) (id : Option ℕ) (sz : ℕ) (hs : List ℕ) (xss : List (List ℕ))
    (bs : List Block) (count : length hs ≡ 15) (chains : Chains m hs xss)
    (tagged : All (Tagged m) bs) (small : owned_small ret free_list_chunk_size xss ≡ 0)
    (small' : owned_small (ret + 4) free_list_chunk_size xss ≡ 0) (live : owned_live ret bs ≡ 0)
    (live' : owned_live (ret + 4) bs ≡ 0) where
  pub header-Chains : Chains (write_header m ret id sz) hs xss
  unfolding write_header
  header-Chains =
      store-Chains (store m ret (id_word id)) (ret + 4) sz free_list_chunk_size hs xss (omega arith)
        (omega arith) small'
        (store-Chains m ret (id_word id) free_list_chunk_size hs xss (omega arith) (omega arith)
          small chains)

  pub header-All-Tagged : All (Tagged (write_header m ret id sz)) bs
  unfolding write_header
  header-All-Tagged =
      store-All-Tagged (store m ret (id_word id)) (ret + 4) sz bs live'
        (store-All-Tagged m ret (id_word id) bs live tagged)

-- The block that the header describes.
pub header-Tagged :
    (m : Mem) (b : Block)
    → Sized b.id b.size
    → 16 ≤ b.size
    → 0 < b.header
    → b.header + b.size < 2 ^ 31
    → Tagged (write_header m b.header b.id b.size) b
unfolding write_header store
header-Tagged m b s h n e = record {
  tag = ground arith;
  length_word = ground arith;
  sized = s;
  holds_header = h;
  not_null = n;
  ends = e;
}
