-- ===== src/Stream/Bounds.antt =====
-- `datastream` of libraries/eosiolib/core/eosio/datastream.hpp: which calls keep to the buffer.
use taurus_cdt.Prelude.{
  ℕ, ◌+◌, ◌-◌, ◌%◌, ◌^◌, ◌<◌, ◌≤◌, ◌≡◌, refl, List, [], ◌∷◌, Bool, true, false, ltb, leb, Result,
  ok, err, ◌>>◌, check, add32, length, arith, le→leb, leb→le, leb-false→lt, ltb→lt, ltb-false→le,
}
use taurus_cdt.Stream.{
  Bytes, Stream, Failure, copy_in, copy_out, remaining, advance, skip, read, read_reuse_storage,
  signed_leb, write, put, get,
}

-- The position lies in the buffer, which does not pass the end of the address space.
pub record InBuffer (ds : Stream) : Type 0 where
  pub from_start : ds.start ≤ ds.pos
  pub to_end : ds.pos ≤ ds.end
  pub small : ds.end < 2 ^ 32

remaining_eq : (ds : Stream) → InBuffer ds → remaining ds ≡ ds.end - ds.pos
unfolding remaining
remaining_eq ds v = omega (arith, v.to_end, v.small)

-- What a call does that takes `s` bytes: it fails exactly where fewer are left, and else stands `s`
-- bytes further on, still in the buffer.
abbrev pub Takes {ℓ} : {A : Type ℓ} → Stream → ℕ → (A → Stream) → Result Failure A → Type 0
Takes ds s after (ok r) =
    (ds.pos + s ≤ ds.end) × (((after r).pos ≡ ds.pos + s) × InBuffer (after r))
Takes ds s after (err e) = ds.end < ds.pos + s

advance-Takes :
    (ds : Stream) (s : ℕ)
    → InBuffer ds
    → ds.pos + s ≤ ds.end
    → ((advance ds s).pos ≡ ds.pos + s) × InBuffer (advance ds s)
unfolding advance
advance-Takes ds s v h =
    let e : add32 ds.pos s ≡ ds.pos + s = omega (arith, v.small, h) in
    (
      e,
      record { from_start = rw e (omega (arith, v.from_start)); to_end = rw e h; small = v.small },
    )

checked-Takes {ℓ} :
    {A : Type ℓ} (ds : Stream) (s : ℕ) (b : Bool) (e : Failure) (after : A → Stream) (r : A)
    → InBuffer ds
    → after r ≡ advance ds s
    → (b ≡ true → ds.pos + s ≤ ds.end)
    → (b ≡ false → ds.end < ds.pos + s)
    → Takes ds s after (check b e >> ok r)
checked-Takes ds s true e after r v q h k = (h refl, rw q (advance-Takes ds s v (h refl)))
checked-Takes ds s false e after r v q h k = k refl

left_iff :
    (ds : Stream) (s : ℕ)
    → InBuffer ds
    → (leb s (remaining ds) ≡ true → ds.pos + s ≤ ds.end)
      × (leb s (remaining ds) ≡ false → ds.end < ds.pos + s)
left_iff ds s v =
    let r = remaining_eq ds v in
    (
      λ e. omega (arith, leb→le s (remaining ds) e, r, v.to_end),
      λ e. omega (arith, leb-false→lt s (remaining ds) e, r, v.to_end),
    )

one_iff :
    (ds : Stream)
    → (ltb ds.pos ds.end ≡ true → ds.pos + 1 ≤ ds.end)
      × (ltb ds.pos ds.end ≡ false → ds.end < ds.pos + 1)
one_iff ds =
    (λ e. omega (arith, ltb→lt ds.pos ds.end e), λ e. omega (arith, ltb-false→le ds.pos ds.end e))

-- For a stream whose position is in its buffer, `read`, `read_reuse_storage`, `get` and `put` fail
-- exactly where fewer bytes are left than they take, and else stand that many bytes further on, still
-- in the buffer.
pub calls-Takes :
    (m : Bytes) (ds : Stream) (s c : ℕ)
    → InBuffer ds
    → Takes {A = List ℕ × Stream} ds s (λ r. r.1) (read m ds s)
      × (Takes {A = ℕ × Stream} ds s (λ r. r.1) (read_reuse_storage ds s)
          × (Takes {A = ℕ × Stream} ds 1 (λ r. r.1) (get m ds)
              × Takes {A = Bytes × Stream} ds 1 (λ r. r.1) (put m ds c)))
unfolding read read_reuse_storage get put
calls-Takes m ds s c v =
    let (h, k) = left_iff ds s v in
    let (h₁, k₁) = one_iff ds in
    (
      checked-Takes ds s (leb s (remaining ds)) _ (λ r. r.1) (copy_out m ds.pos s, advance ds s) v
          refl h k,
      (
        checked-Takes ds s (leb s (remaining ds)) _ (λ r. r.1) (ds.pos, advance ds s) v refl h k,
        (
          checked-Takes ds 1 (ltb ds.pos ds.end) _ (λ r. r.1) (m ds.pos, advance ds 1) v refl h₁ k₁,
          checked-Takes ds 1 (ltb ds.pos ds.end) _ (λ r. r.1)
              (copy_in m ds.pos (c ∷ []), advance ds 1) v refl h₁ k₁,
        ),
      ),
    )

signed_iff :
    (ds : Stream) (s : ℕ)
    → InBuffer ds
    → ds.end - ds.pos < 2 ^ 31
    → s < 2 ^ 31
    → (signed_leb s (remaining ds) ≡ true → ds.pos + s ≤ ds.end)
      × (signed_leb s (remaining ds) ≡ false → ds.end < ds.pos + s)
unfolding signed_leb
signed_iff ds s v small t =
    let r = remaining_eq ds v in
    (
      λ e. omega (
        arith,
        leb→le ((s + 2 ^ 31) % 2 ^ 32) ((remaining ds + 2 ^ 31) % 2 ^ 32) e,
        r,
        v.to_end,
        small,
        t,
      ),
      λ e. omega (
        arith,
        leb-false→lt ((s + 2 ^ 31) % 2 ^ 32) ((remaining ds + 2 ^ 31) % 2 ^ 32) e,
        r,
        v.to_end,
        small,
        t,
      ),
    )

-- For a stream whose position is in its buffer, `write` of fewer than 2^31 bytes, while fewer than that
-- are left, fails exactly where fewer bytes are left than it takes, and else stands behind them, still
-- in the buffer.
pub write-Takes :
    (m : Bytes) (ds : Stream) (d : List ℕ)
    → InBuffer ds
    → ds.end - ds.pos < 2 ^ 31
    → length d < 2 ^ 31
    → Takes {A = Bytes × Stream} ds (length d) (λ r. r.1) (write m ds d)
unfolding write
write-Takes m ds d v small t =
    let (h, k) = signed_iff ds (length d) v small t in
    checked-Takes ds (length d) (signed_leb (length d) (remaining ds)) _ (λ r. r.1)
      (copy_in m ds.pos d, advance ds (length d)) v refl h k

-- A size from 2^31 up to 2^32 is negative for the test of `write`, which then copies the bytes however
-- few are left.
pub write_unchecked :
    (m : Bytes) (ds : Stream) (d : List ℕ)
    → InBuffer ds
    → ds.end - ds.pos < 2 ^ 31
    → 2 ^ 31 ≤ length d
    → length d < 2 ^ 32
    → write m ds d ≡ ok (copy_in m ds.pos d, advance ds (length d))
unfolding write signed_leb
write_unchecked m ds d v small lo hi =
    let r = remaining_eq ds v in
    let t : leb ((length d + 2 ^ 31) % 2 ^ 32) ((remaining ds + 2 ^ 31) % 2 ^ 32) ≡ true =
      le→leb ((length d + 2 ^ 31) % 2 ^ 32) ((remaining ds + 2 ^ 31) % 2 ^ 32)
        (omega (arith, r, small, lo, hi)) in
    rw t refl

-- A size that goes past the end of the address space takes `skip` back: it succeeds, and stands before
-- the place where it was.
pub skip_back :
    (ds : Stream) (s : ℕ)
    → InBuffer ds
    → s < 2 ^ 32
    → 2 ^ 32 ≤ ds.pos + s
    → (skip ds s ≡ ok (advance ds s)) × ((advance ds s).pos < ds.pos)
unfolding skip advance
skip_back ds s v hi lo =
    let t : leb (add32 ds.pos s) ds.end ≡ true =
      le→leb (add32 ds.pos s) ds.end (omega (arith, v.to_end, v.small, hi, lo)) in
    (rw t refl, omega (arith, v.to_end, v.small, hi, lo))
