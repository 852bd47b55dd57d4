-- ===== src/Alloc/Release.antt =====
-- `dsmalloc::free` of simple_malloc.cpp: a block that is given back leaves the blocks in use, and
-- the invariant holds.
use taurus_cdt.Prelude.{
  ℕ, zero, suc, ◌+◌, ◌-◌, ◌^◌, ◌≤◌, ◌<◌, ◌≡◌, ◌≢◌, refl, sym, ap, ◌∙◌, subst, List, [], ◌∷◌, ◌++◌,
  none, some, get_elem?, get_or, set, All, All-append, arith, length, length-set, true, false, inl,
  inr, Option-cases, ltb, if◌then◌else◌,
}
use taurus_cdt.Alloc.Store.{store, store_self}
use taurus_cdt.Alloc.Small.{free_list_chunk_size}
use taurus_cdt.Alloc.Big.{add_to_bigchunk}
use taurus_cdt.Alloc.Big.Ownership.{inside, owned, owned-add-le, add-Fits}
use taurus_cdt.Alloc.Dsmalloc.{Dsmalloc, id_word}
use taurus_cdt.Alloc.Libc.{release, give_back_small, give_back_big, has_header}
use taurus_cdt.Alloc.Owners.{
  Chain, owned_list, owned_small, Block, owned_live, Tagged, Sized, Inv, owned_small-set,
  owned_live-append,
}
use taurus_cdt.Alloc.Frame.{Chains-get, Chains-set, store-Chains, store-All-Tagged}

All-split :
    (P : Block → Type 0) (pre post : List Block) (b : Block)
    → All P (pre ++ b ∷ post)
    → All P pre × P b × All P post
All-split P [] post b h = (tt, h.0, h.1)
All-split P (x ∷ pre) post b h = let (p, q, r) = All-split P pre post b h.1 in ((h.0, p), q, r)

owned_live_split :
    (a : ℕ) (pre post : List Block) (b : Block)
    → owned_live a (pre ++ b ∷ post) ≡ owned_live a (pre ++ post) + inside a b.header b.size
unfolding owned_live
owned_live_split a pre post b =
    omega (arith, owned_live-append a pre (b ∷ post), owned_live-append a pre post)

owned_at :
    (p n base m x y z w : ℕ)
    → 0 < n
    → w ≡ z + inside p p n
    → x + y + w ≤ inside p base m
    → (y ≡ 0) × (z ≡ 0)
unfolding inside
owned_at p n base m x y z w k e o = ground arith

elem_bound : (xs : List ℕ) (i x : ℕ) → get_elem? xs i ≡ some x → i < length xs
elem_bound [] i x e = cc
elem_bound (y ∷ xs) zero x e = omega arith
elem_bound (y ∷ xs) (suc i) x e = omega (arith, elem_bound xs i x e)

release_eq :
    (s : Dsmalloc) (p : ℕ)
    → p + 16 < 2 ^ 31
    → release s (p + 16)
      ≡ (if ltb (s.mem p) 15 then give_back_small s p (s.mem p) else give_back_big s p)
unfolding release
release_eq s p h =
    let t : has_header (p + 16) ≡ true = (unfold has_header in ground arith) in
    let e : p + 16 - 16 ≡ p = omega arith in rw (t, e)

module _ (base : ℕ) (s : Dsmalloc) (pre post : List Block) (b : Block) (frees : List (List ℕ))
    (v : Inv base s (pre ++ b ∷ post) frees) where
  parts : All (Tagged s.mem) pre × Tagged s.mem b × All (Tagged s.mem) post
  parts = All-split (Tagged s.mem) pre post b v.tagged

  others : All (Tagged s.mem) (pre ++ post)
  others = All-append (Tagged s.mem) pre post parts.0 parts.2

  at_header :
      (owned_small b.header free_list_chunk_size frees ≡ 0)
      × (owned_live b.header (pre ++ post) ≡ 0)
  at_header =
      owned_at b.header b.size base _ _ _ _ _ (omega (arith, parts.1.holds_header))
        (owned_live_split b.header pre post b) (v.once b.header)

  big-Inv : b.id ≡ none → Inv base (give_back_big s b.header) (pre ++ post) frees
  unfolding give_back_big
  big-Inv e =
      let t = parts.1 in
      let room : b.header + s.mem (b.header + 4) < 2 ^ 32 = omega (arith, t.length_word, t.ends) in
      record {
        count = v.count;
        chains = v.chains;
        tagged = others;
        fits = add-Fits b.header (s.mem (b.header + 4)) s.bigchunks v.fits room;
        once = λ a.
            let le =
              subst
                (λ n.
                  owned a (add_to_bigchunk b.header (s.mem (b.header + 4)) s.bigchunks)
                  ≤ owned a s.bigchunks + inside a b.header n)
                t.length_word
                (owned-add-le b.header (s.mem (b.header + 4)) s.bigchunks v.fits room a) in
            omega (arith, v.once a, owned_live_split a pre post b, le);
        base_pos = v.base_pos;
        base_le = v.base_le;
        aligned = v.aligned;
        in_page = v.in_page;
        synced = v.synced;
        granted = v.granted;
      }

  module _ (i : ℕ) (e : b.id ≡ some i) where
    size_eq : get_elem? free_list_chunk_size i ≡ some b.size
    size_eq = subst (λ j. Sized j b.size) e parts.1.sized

    bound : i < length s.free_lists
    bound = omega (arith, elem_bound free_list_chunk_size i b.size size_eq, v.count)

    small_eq : give_back_small s b.header i ≡ record s {
      mem = store s.mem b.header (get_or s.free_lists i 0);
      free_lists = set s.free_lists i b.header;
    }
    unfolding give_back_small
    small_eq = let h : ltb i (length s.free_lists) ≡ true = (let k = bound in ground arith) in rw h

    small-Inv :
        (frees' : List (List ℕ)) × Inv base (give_back_small s b.header i) (pre ++ post) frees'
    unfolding owned_list
    small-Inv =
        let w = get_or s.free_lists i 0 in
        let m = store s.mem b.header w in
        let chs =
          store-Chains s.mem b.header w free_list_chunk_size s.free_lists frees (omega arith)
            (omega (arith, v.count)) at_header.0 v.chains in
        let (xs, g, c) = Chains-get m s.free_lists frees i bound chs in
        let c' = subst (λ h. Chain m h xs) (sym (store_self s.mem b.header w)) c in
        let n : b.header ≢ 0 = omega (arith, parts.1.not_null) in
        (
          set frees i (b.header ∷ xs),
          subst (λ t. Inv base t (pre ++ post) (set frees i (b.header ∷ xs))) (sym small_eq)
              (record {
                count = length-set s.free_lists i b.header ∙ v.count;
                chains =
                    Chains-set m s.free_lists frees i b.header (b.header ∷ xs) chs (refl, n, c');
                tagged = store-All-Tagged s.mem b.header w (pre ++ post) at_header.1 others;
                fits = v.fits;
                once = λ a. omega (
                  arith,
                  v.once a,
                  owned_live_split a pre post b,
                  owned_small-set a i b.size free_list_chunk_size frees xs (b.header ∷ xs) size_eq
                      g,
                );
                base_pos = v.base_pos;
                base_le = v.base_le;
                aligned = v.aligned;
                in_page = v.in_page;
                synced = v.synced;
                granted = v.granted;
              }),
        )

  -- The header's first word leads to the right list.
  release_big : b.id ≡ none → release s (b.header + 16) ≡ give_back_big s b.header
  unfolding id_word
  release_big e =
      let h : ltb (s.mem b.header) 15 ≡ false =
        (let t = parts.1.tag ∙ ap id_word e in ground arith) in
      release_eq s b.header (omega (arith, parts.1.ends, parts.1.holds_header)) ∙ rw h

  release_small : (i : ℕ) → b.id ≡ some i → release s (b.header + 16) ≡ give_back_small s b.header i
  unfolding id_word
  release_small i e =
      let t = parts.1.tag ∙ ap id_word e in
      let k = elem_bound free_list_chunk_size i b.size (size_eq i e) in
      let h : ltb i 15 ≡ true = ground arith in
      release_eq s b.header (omega (arith, parts.1.ends, parts.1.holds_header)) ∙ rw (t, h)

  -- In a state that satisfies the invariant, giving back any block in use, whatever its size and its
  -- place among them, keeps the invariant for the others.
  pub release-Inv :
      (frees' : List (List ℕ)) × Inv base (release s (b.header + 16)) (pre ++ post) frees'
  release-Inv = elim (Option-cases b.id) [
    | inl e ↦ (frees, subst (λ t. Inv base t (pre ++ post) frees) (sym (release_big e)) (big-Inv e))
    | inr (i, e) ↦
        let (frees', w) = small-Inv i e in
        (frees', subst (λ t. Inv base t (pre ++ post) frees') (sym (release_small i e)) w)
  ]
