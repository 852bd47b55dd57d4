-- ===== src/Alloc/Allocate.antt =====
-- `dsmalloc::operator()` of simple_malloc.cpp: whichever path serves a request, the block is new.
use taurus_cdt.Prelude.{
  ℕ, zero, suc, ◌+◌, ◌*◌, ◌^◌, ◌≤◌, ◌<◌, ◌≡◌, ◌≢◌, ◌⊎◌, refl, sym, ap, ◌∙◌, subst, List, [], ◌∷◌,
  Option, none, some, get_elem?, get_or, set, All, arith, length, length-set, Bool, true, false,
  Result, ok, err, Bool-cases, inl, inr, ◌==◌, add32, leb, leb→le, ◌%◌,
}
use taurus_cdt.Alloc.Libc.{malloc}
use native.Mathlib.Nat.{add-zero}
use taurus_cdt.Alloc.Store.{Mem}
use taurus_cdt.Alloc.Small.{
  free_list_chunk_size, allocate_from_free_list, find_from, find_small_mem_size,
}
use taurus_cdt.Alloc.Big.{alloc_from_bigchunk}
use taurus_cdt.Alloc.Big.Ownership.{inside, owned-alloc, alloc-Fits}
use taurus_cdt.Alloc.Dsmalloc.{
  Dsmalloc, Failure, id_word, write_header, alloc_reused, alloc_listed, is_listed, alloc_fresh,
  alloc_sized, allocate, align, pages_for,
}
use taurus_cdt.Alloc.Owners.{Chain, owned_list, Block, owned_live, Inv, Limited, owned_small-set}
use taurus_cdt.Alloc.Frame.{Chains-get, Chains-set}
use taurus_cdt.Alloc.Invariant.{Request, fresh-Inv, fresh_block}
use taurus_cdt.Alloc.Reuse.{taken-Inv}

-- What a call returns: an error and nothing else, or the address behind the header of a block of
-- `sz` bytes that joins the blocks in use while the invariant holds.
abbrev pub Serves : ℕ → List Block → ℕ → Result Failure (ℕ × Dsmalloc) → Type 0
Serves base live sz (err e) = Unit {0}
Serves base live sz (ok (r, s')) =
    (b : Block) × (frees : List (List ℕ)) × (r ≡ add32 b.header 16)
    × (b.size ≡ sz)
    × Inv base s' (b ∷ live) frees

get_or_bound : (hs : List ℕ) (i : ℕ) → get_or hs i 0 ≢ 0 → i < length hs
get_or_bound [] i h = absurd (h refl)
get_or_bound (x ∷ hs) zero h = omega arith
get_or_bound (x ∷ hs) (suc i) h = omega (arith, get_or_bound hs i h)

Chain-head :
    (m : Mem) (h : ℕ) (xs : List ℕ)
    → Chain m h xs
    → h ≢ 0
    → (rest : List ℕ) × (xs ≡ h ∷ rest) × Chain m (m h) rest
Chain-head m h [] c n = absurd (n c)
Chain-head m h (x ∷ xs) (e, k, c) n = (xs, cc, subst (λ y. Chain m (m y) xs) (sym e) c)

module _ (base : ℕ) (s : Dsmalloc) (live : List Block) (frees : List (List ℕ))
    (v : Inv base s live frees) (sz : ℕ) where
  reused-Serves : (id : Option ℕ) → Request id sz → Serves base live sz (alloc_reused s id sz)
  unfolding alloc_reused
  reused-Serves id q =
      let ret = (alloc_from_bigchunk sz s.bigchunks).0 in
      let chunks = (alloc_from_bigchunk sz s.bigchunks).1 in
      elim (Bool-cases (ret == 0)) [
        | inl z ↦ rw z tt
        | inr nz ↦
            let n : ret ≢ 0 = ground arith in
            rw nz (
              record { header = ret; id = id; size = sz },
              frees,
              refl,
              refl,
              taken-Inv base s live frees v id sz q ret s.free_lists frees chunks v.count v.chains
                  (alloc-Fits sz s.bigchunks v.fits)
                  (λ a. omega (arith, owned-alloc a sz s.bigchunks v.fits n)),
            )
      ]

  alloc_listed_eq :
      (i : ℕ)
      → is_listed s (some i) ≡ true
      → alloc_listed s i sz ≡ (
        add32 (get_or s.free_lists i 0) 16,
        record s {
          mem = write_header s.mem (get_or s.free_lists i 0) (some i) sz;
          free_lists = set s.free_lists i (s.mem (get_or s.free_lists i 0));
        },
      )
  unfolding alloc_listed allocate_from_free_list is_listed write_header
  alloc_listed_eq i l = rw (l, allocate_from_free_list)

  listed-Serves :
      (i : ℕ)
      → Request (some i) sz
      → is_listed s (some i) ≡ true
      → Serves base live sz (ok (alloc_listed s i sz))
  unfolding is_listed owned_list
  listed-Serves i q l =
      let cur = get_or s.free_lists i 0 in
      let n : cur ≢ 0 = ground arith in
      let k = get_or_bound s.free_lists i n in
      let (xs, g, c) = Chains-get s.mem s.free_lists frees i k v.chains in
      let (rest, e, c') = Chain-head s.mem cur xs c n in
      rw (alloc_listed_eq i l) (
        record { header = cur; id = some i; size = sz },
        set frees i rest,
        refl,
        refl,
        taken-Inv base s live frees v (some i) sz q cur (set s.free_lists i (s.mem cur))
            (set frees i rest) s.bigchunks (length-set s.free_lists i (s.mem cur) ∙ v.count)
            (Chains-set s.mem s.free_lists frees i (s.mem cur) rest v.chains c') v.fits
            (λ a. omega (
              arith,
              owned_small-set a i sz free_list_chunk_size frees (cur ∷ rest) rest q.sized
                  (g ∙ ap some e),
            )),
      )

  module _ (can_grow : ℕ → ℕ → Bool) (limited : Limited can_grow) where
    fresh-Serves :
        (id : Option ℕ) → Request id sz → Serves base live sz (alloc_fresh can_grow s id sz 16)
    unfolding alloc_fresh fresh_block
    fresh-Serves id q =
        elim (Bool-cases
          (can_grow s.pages (pages_for s.next_page sz (align (add32 s.last_ptr sz) 16)))) [
            | inl g ↦ rw g (
              fresh_block can_grow limited base s live frees v id sz q,
              frees,
              refl,
              refl,
              fresh-Inv can_grow limited base s live frees v id sz q g,
            )
            | inr g ↦ rw g (reused-Serves id q)
          ]

    sized_listed_eq :
        (i : ℕ)
        → is_listed s (some i) ≡ true
        → alloc_sized can_grow s (some i) sz 16 ≡ ok (alloc_listed s i sz)
    unfolding alloc_sized id_word
    sized_listed_eq i l = rw l

    sized-Serves :
        (id : Option ℕ) → Request id sz → Serves base live sz (alloc_sized can_grow s id sz 16)
    unfolding alloc_sized is_listed
    sized-Serves none q = fresh-Serves none q
    sized-Serves (some i) q = elim (Bool-cases (is_listed s (some i))) [
      | inl l ↦ subst (Serves base live sz) (sym (sized_listed_eq i l)) (listed-Serves i q l)
      | inr l ↦ rw l (fresh-Serves (some i) q)
    ]

-- The size found for a request is one of the list's, or the request itself.
find_from_lem :
    (i : ℕ) (cs : List ℕ) (sz : ℕ)
    → ((find_from i cs sz).0 ≡ none) × ((find_from i cs sz).1 ≡ sz)
      ⊎ (k : ℕ) × (c : ℕ) × (find_from i cs sz ≡ (some (i + k), c))
        × (get_elem? cs k ≡ some c)
        × (sz ≤ c)
unfolding find_from
find_from_lem i [] sz = inl (refl, refl)
find_from_lem i (c ∷ cs) sz = elim (Bool-cases (leb sz c)) [
  | inl e ↦ inr (0, c, rw e (ap (λ j. (some j, c)) (sym (add-zero i))), refl, leb→le sz c e)
  | inr e ↦ elim (find_from_lem (suc i) cs sz) [
    | inl (p, q) ↦ inl (rw e p, rw e q)
    | inr (k, d, p, q, r) ↦ inr (suc k, d, rw e (p ∙ ap (λ j. (some j, d)) (omega arith)), q, r)
  ]
]

All-get_elem? : (P : ℕ → Type 0) (cs : List ℕ) (k c : ℕ) → All P cs → get_elem? cs k ≡ some c → P c
All-get_elem? P [] k c h e = cc
All-get_elem? P (d ∷ cs) zero c h e = let f : d ≡ c = cc in subst P f h.0
All-get_elem? P (d ∷ cs) (suc k) c h e = All-get_elem? P cs k c h.1 e

chunk_sizes :
    (k c : ℕ) → get_elem? free_list_chunk_size k ≡ some c → (16 ≤ c) × (c % 16 ≡ 0) × (c ≤ 2 ^ 20)
chunk_sizes k c e =
    All-get_elem? (λ c. (16 ≤ c) × (c % 16 ≡ 0) × (c ≤ 2 ^ 20)) free_list_chunk_size k c
      (omega arith) e

pub small_size :
    (sz : ℕ)
    → 16 ≤ sz
    → sz % 16 ≡ 0
    → sz ≤ 2 ^ 30 + 32
    → (sz ≤ (find_small_mem_size sz).1)
      × Request (find_small_mem_size sz).0 (find_small_mem_size sz).1
unfolding find_small_mem_size
small_size sz lo al hi = elim (find_from_lem 0 free_list_chunk_size sz) [
  | inl (p, q) ↦ (
    omega (arith, q),
    subst (λ i. Request i (find_small_mem_size sz).1) (sym p)
        (subst (Request none) (sym q)
          (record { sized = tt; holds_header = lo; aligned = al; moderate = hi })),
  )
  | inr (k, c, p, q, r) ↦
      let (x, y, z) = chunk_sizes k c q in
      subst (λ f. (sz ≤ f.1) × Request f.0 f.1) (sym p)
        (
          r,
          record {
            sized = subst (λ j. get_elem? free_list_chunk_size j ≡ some c) (omega arith) q;
            holds_header = x;
            aligned = y;
            moderate = omega arith;
          },
        )
]

last_below :
    {live : List Block} {frees : List (List ℕ)} (base : ℕ) (s : Dsmalloc)
    → Inv base s live frees
    → (s.last_ptr < s.pages * 2 ^ 16) × (base ≤ s.last_ptr)
last_below base s v = omega (arith, v.in_page, v.synced, v.base_le)

-- A request of at least one byte, up to 1 GB, from `malloc`.
module _ (can_grow : ℕ → ℕ → Bool) (limited : Limited can_grow) (base : ℕ) (s : Dsmalloc)
    (live : List Block) (frees : List (List ℕ)) (v : Inv base s live frees) (n : ℕ) (pos : 0 < n)
    (moderate : n ≤ 2 ^ 30) where
  abbrev pub rounded : ℕ
  rounded = (find_small_mem_size (align (add32 n 16) 16)).1

  pub rounded-le : n + 16 ≤ rounded
  unfolding align
  rounded-le =
      omega
        (arith, (small_size (align (add32 n 16) 16) (omega arith) (omega arith) (omega arith)).0)

  -- From a state that satisfies the invariant, with a host that grants at most 33 MB, a request of 1 byte to
  -- 1 GB from `malloc` either
  -- fails or returns the address behind the header of a new block of the rounded size, and the
  -- invariant holds with that block among those in use.
  pub malloc-Serves : Serves base live rounded (malloc can_grow s n)
  unfolding malloc allocate align
  malloc-Serves =
      let (le, q) = small_size (align (add32 n 16) 16) (omega arith) (omega arith) (omega arith) in
      let id = (find_small_mem_size (align (add32 n 16) 16)).0 in
      let z : (n == 0) ≡ false = ground arith in
      rw z (sized-Serves base s live frees v rounded can_grow limited id q)

  -- From a state that satisfies the invariant, with a host that grants at most 33 MB, what `malloc`
  -- returns for a request of 1 byte to 1 GB lies in the memory that the host has granted, and shares no byte with a
  -- block in use.
  pub malloc_fresh :
      (r : ℕ) (s' : Dsmalloc)
      → malloc can_grow s n ≡ ok (r, s')
      → (a : ℕ) → r ≤ a
      → a < r + n
      → (owned_live a live ≡ 0) × (base ≤ a) × (a < s'.pages * 2 ^ 16)
  unfolding owned_live inside
  malloc_fresh r s' e a lo hi =
      let (b, frees', p, q, w) = subst (Serves base live rounded) e malloc-Serves in
      let t = w.tagged.0 in
      let o = w.once a in
      let le = rounded-le in
      let h : r ≡ b.header + 16 = omega (arith, p, t.ends, t.holds_header) in
      let m = last_below base s' w in ground arith
