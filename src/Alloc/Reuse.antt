-- ===== src/Alloc/Reuse.antt =====
-- The paths of `dsmalloc::operator()` that reuse freed memory, and the invariant.
use taurus_cdt.Prelude.{ℕ, ◌+◌, ◌-◌, ◌≤◌, ◌<◌, ◌≡◌, subst, List, ◌∷◌, Option, All, arith, length}
use native.Mathlib.Nat.{add-zero}
use taurus_cdt.Alloc.Small.{free_list_chunk_size}
use taurus_cdt.Alloc.Big.{BigChunk}
use taurus_cdt.Alloc.Big.Ownership.{inside, owned, Fits}
use taurus_cdt.Alloc.Dsmalloc.{Dsmalloc, write_header}
use taurus_cdt.Alloc.Owners.{Chains, owned_small, Block, owned_live, Inv}
use taurus_cdt.Alloc.Frame.{header-Chains, header-All-Tagged, header-Tagged}
use taurus_cdt.Alloc.Invariant.{Request}

owner_range :
    (k base n p sz x y z : ℕ)
    → k < sz
    → x + y + z ≤ inside (p + k) base n
    → inside (p + k) p sz ≤ x + y
    → (base ≤ p + k) × (p + k < base + n) × (x + y ≤ 1) × (z ≡ 0)
unfolding inside
owner_range k base n p sz x y z h o i = ground arith

-- A range that was owned once by the free memory, and that no chunk owns any more.
module _ (base : ℕ) (s : Dsmalloc) (live : List Block) (frees : List (List ℕ))
    (v : Inv base s live frees) (id : Option ℕ) (sz : ℕ) (q : Request id sz) (ret : ℕ) (hs : List ℕ)
    (frees' : List (List ℕ)) (chunks : List BigChunk) (count : length hs ≡ 15)
    (chains : Chains s.mem hs frees') (fits : All Fits chunks)
    (taken : (a : ℕ)
      → owned a chunks + owned_small a free_list_chunk_size frees' + inside a ret sz
        ≡ owned a s.bigchunks + owned_small a free_list_chunk_size frees) where
  abbrev pub block : Block
  block = record { header = ret; id = id; size = sz }

  at_range :
      (k : ℕ)
      → k < sz
      → (base ≤ ret + k)
        × (ret + k < base + (s.last_ptr - base))
        × (owned_small (ret + k) free_list_chunk_size frees' ≡ 0)
        × (owned_live (ret + k) live ≡ 0)
  at_range k h =
      let t = taken (ret + k) in
      let r =
        owner_range k base (s.last_ptr - base) ret sz (owned (ret + k) s.bigchunks)
          (owned_small (ret + k) free_list_chunk_size frees) (owned_live (ret + k) live) h
          (v.once (ret + k)) (omega (arith, t)) in
      let i : inside (ret + k) ret sz ≡ 1 = (unfold inside in ground arith) in
      (r.0, r.1, omega (arith, t, r, i), r.3)

  at_zero : (f : ℕ → ℕ) → f (ret + 0) ≡ 0 → f ret ≡ 0
  at_zero f e = subst (λ x. f x ≡ 0) (add-zero ret) e

  pub taken-Inv :
      Inv base
        (record s { mem = write_header s.mem ret id sz; free_lists = hs; bigchunks = chunks })
        (block ∷ live)
        frees'
  unfolding owned_live
  taken-Inv =
      let o = at_range 0 (omega (arith, q.holds_header)) in
      let o' = at_range 4 (omega (arith, q.holds_header)) in
      let last = at_range (sz - 1) (omega (arith, q.holds_header)) in
      let sm = at_zero (λ x. owned_small x free_list_chunk_size frees') o.2 in
      let lv = at_zero (λ x. owned_live x live) o.3 in
      record {
        count = count;
        chains = header-Chains s.mem ret id sz hs frees' live count chains v.tagged sm o'.2 lv o'.3;
        tagged = (
          header-Tagged s.mem block q.sized q.holds_header (omega (arith, v.base_pos, o))
              (omega (arith, v.in_page, v.granted, v.base_le, last, q.holds_header)),
          header-All-Tagged s.mem ret id sz hs frees' live count chains v.tagged sm o'.2 lv o'.3,
        );
        fits = fits;
        once = λ a. omega (arith, taken a, v.once a);
        base_pos = v.base_pos;
        base_le = v.base_le;
        aligned = v.aligned;
        in_page = v.in_page;
        synced = v.synced;
        granted = v.granted;
      }
