-- ===== src/Alloc/Invariant.antt =====
-- `dsmalloc::operator()` of simple_malloc.cpp keeps the invariant, path by path.
use taurus_cdt.Prelude.{
  ℕ, ◌+◌, ◌-◌, ◌*◌, ◌%◌, ◌^◌, ◌≤◌, ◌<◌, ◌≡◌, subst, List, ◌∷◌, Option, arith, Bool, true, add32,
}
use native.Mathlib.Nat.{add-zero}
use taurus_cdt.Alloc.Small.{free_list_chunk_size}
use taurus_cdt.Alloc.Big.Ownership.{inside, owned}
use taurus_cdt.Alloc.Dsmalloc.{Dsmalloc, align, write_header, pages_for}
use taurus_cdt.Alloc.Owners.{owned_small, Block, owned_live, Sized, Inv, Limited, max_pages}
use taurus_cdt.Alloc.Frame.{header-Chains, header-All-Tagged, header-Tagged}

-- Room for the request, and a size that goes with the list.
pub record Request (id : Option ℕ) (sz : ℕ) : Type 0 where
  pub sized : Sized id sz
  pub holds_header : 16 ≤ sz
  pub aligned : sz % 16 ≡ 0
  pub moderate : sz ≤ 2 ^ 30 + 32

pages_for_reach :
    (next sz last p : ℕ)
    → last ≡ p + sz
    → p < next * 2 ^ 16
    → next ≤ max_pages
    → sz ≤ 2 ^ 30 + 32
    → p % 16 ≡ 0
    → sz % 16 ≡ 0
    → last < (next + pages_for next sz last) * 2 ^ 16
unfolding pages_for
pages_for_reach next sz last p h k l m n o = ground arith

pub align_last :
    (p sz : ℕ) → p % 16 ≡ 0 → sz % 16 ≡ 0 → p + sz < 2 ^ 31 → align (add32 p sz) 16 ≡ p + sz
unfolding align
align_last p sz h k l = omega arith

-- No address from `p` on is owned, if all owners lie below `p`.
above_free :
    (base p k x y z : ℕ)
    → base ≤ p
    → x + y + z ≤ inside (p + k) base (p - base)
    → (x ≡ 0) × (y ≡ 0) × (z ≡ 0)
unfolding inside
above_free base p k x y z h o = ground arith

grown_bound :
    (a base p sz o : ℕ)
    → base ≤ p
    → o ≤ inside a base (p - base)
    → inside a p sz + o ≤ inside a base (p + sz - base)
unfolding inside
grown_bound a base p sz o h k = ground arith

module _ (can_grow : ℕ → ℕ → Bool) (limited : Limited can_grow) where
  module _ (base : ℕ) (s : Dsmalloc) (live : List Block) (frees : List (List ℕ))
      (v : Inv base s live frees) (id : Option ℕ) (sz : ℕ) (q : Request id sz) where
    abbrev pub last : ℕ
    last = align (add32 s.last_ptr sz) 16

    abbrev pub delta : ℕ
    delta = pages_for s.next_page sz last

    pub last_eq : last ≡ s.last_ptr + sz
    last_eq =
        align_last s.last_ptr sz v.aligned q.aligned
          (omega (arith, v.in_page, v.granted, q.moderate))

    fresh_free :
        (k : ℕ)
        → (owned (s.last_ptr + k) s.bigchunks ≡ 0)
          × (owned_small (s.last_ptr + k) free_list_chunk_size frees ≡ 0)
          × (owned_live (s.last_ptr + k) live ≡ 0)
    fresh_free k = above_free base s.last_ptr k _ _ _ v.base_le (v.once (s.last_ptr + k))

    unfoldable pub fresh_block : Block
    fresh_block = record { header = s.last_ptr; id = id; size = sz }

    at_last : (f : ℕ → ℕ) → f (s.last_ptr + 0) ≡ 0 → f s.last_ptr ≡ 0
    at_last f e = subst (λ x. f x ≡ 0) (add-zero s.last_ptr) e

    pub fresh-Inv :
        can_grow s.pages delta ≡ true
        → Inv base
            (record s {
              mem = write_header s.mem s.last_ptr id sz;
              last_ptr = last;
              next_page = add32 s.next_page delta;
              pages = s.pages + delta;
            })
            (fresh_block ∷ live)
            frees
    unfolding fresh_block owned_live
    fresh-Inv g =
        let lim = limited s.pages delta g in
        let o = fresh_free 0 in
        let o' = fresh_free 4 in
        let sm = at_last (λ x. owned_small x free_list_chunk_size frees) o.1 in
        let lv = at_last (λ x. owned_live x live) o.2 in
        record {
          count = v.count;
          chains =
              header-Chains s.mem s.last_ptr id sz s.free_lists frees live v.count v.chains v.tagged
                sm o'.1 lv o'.2;
          tagged = (
            header-Tagged s.mem fresh_block q.sized q.holds_header
                (omega (arith, v.base_pos, v.base_le))
                (omega (arith, v.in_page, v.granted, q.moderate)),
            header-All-Tagged s.mem s.last_ptr id sz s.free_lists frees live v.count v.chains
                v.tagged sm o'.1 lv o'.2,
          );
          fits = v.fits;
          once = λ a.
              rw last_eq (omega (arith, grown_bound a base s.last_ptr sz _ v.base_le (v.once a)));
          base_pos = v.base_pos;
          base_le = omega (arith, last_eq, v.base_le);
          aligned = omega (arith, last_eq, v.aligned, q.aligned);
          in_page = omega (
            arith,
            pages_for_reach s.next_page sz last s.last_ptr last_eq v.in_page v.granted q.moderate
                v.aligned q.aligned,
            lim,
            v.synced,
          );
          synced = omega (arith, lim, v.synced);
          granted = omega (arith, lim, v.synced);
        }
