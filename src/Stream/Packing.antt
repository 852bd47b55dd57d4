-- ===== src/Stream/Packing.antt =====
-- `pack_size` and `pack` of libraries/eosiolib/core/eosio/datastream.hpp: the counter and the stream agree.
use taurus_cdt.Prelude.{
  ℕ, suc, ◌+◌, ◌-◌, ◌%◌, ◌^◌, ◌<◌, ◌≤◌, ◌≡◌, refl, ap, ◌∙◌, List, [], ◌∷◌, ◌++◌, true, leb, ◌==◌,
  if◌then◌else◌, ok, add32, sub32, length, length-append, arith, le→leb, lt→ltb, ==_refl,
  ne→==-false,
}
use taurus_cdt.Stream.{
  Bytes, Stream, make_stream, copy_in, copy_out, remaining, advance, signed_leb, write, put, Call,
  put_call, write_call, send, count_from, pack_size, pack,
}
use taurus_cdt.Stream.Size

pub copy_in-below : (m : Bytes) (a b : ℕ) (cs : List ℕ) → b < a → copy_in m a cs b ≡ m b
unfolding copy_in
copy_in-below m a b [] h = refl
copy_in-below m a b (c ∷ cs) h =
    copy_in-below (λ b. if a == b then c else m b) (a + 1) b cs (omega (arith, h))
    ∙ rw (ne→==-false a b (λ e. omega (arith, e, h))) refl

pub copy_out-copy_in :
    (m : Bytes) (a : ℕ) (cs : List ℕ) → copy_out (copy_in m a cs) a (length cs) ≡ cs
unfolding copy_out copy_in
copy_out-copy_in m a [] = refl
copy_out-copy_in m a (c ∷ cs) =
    let m' : Bytes = λ b. if a == b then c else m b in
    let h : copy_in m' (a + 1) cs a ≡ c =
      copy_in-below m' (a + 1) a cs (omega arith) ∙ rw (==_refl a) refl in
    rw (h, copy_out-copy_in m' (a + 1) cs) refl

pub copy_in-append :
    (m : Bytes) (a : ℕ) (xs ys : List ℕ)
    → copy_in (copy_in m a xs) (a + length xs) ys ≡ copy_in m a (xs ++ ys)
unfolding copy_in
copy_in-append m a [] ys = ap (λ k. copy_in m k ys) (omega arith)
copy_in-append m a (x ∷ xs) ys =
    let m' : Bytes = λ b. if a == b then x else m b in
    ap (λ k. copy_in (copy_in m' (a + 1) xs) k ys) (omega arith) ∙ copy_in-append m' (a + 1) xs ys

-- What the calls write.
abbrev pub bytes_of : List Call → List ℕ
bytes_of [] = []
bytes_of (put_call c ∷ cs) = c ∷ bytes_of cs
bytes_of (write_call d ∷ cs) = d ++ bytes_of cs

count_from-eq :
    (size : ℕ) (cs : List Call)
    → size + length (bytes_of cs) < 2 ^ 32
    → count_from size cs ≡ size + length (bytes_of cs)
unfolding count_from Size.put Size.write
count_from-eq size [] h = omega arith
count_from-eq size (put_call c ∷ cs) h =
    let e : add32 size 1 ≡ size + 1 = omega (arith, h) in
    rw e (count_from-eq (size + 1) cs (omega (arith, h)) ∙ omega arith)
count_from-eq size (write_call d ∷ cs) h =
    let n = length-append d (bytes_of cs) in
    let e : add32 size (length d) ≡ size + length d = omega (arith, h, n) in
    rw e (count_from-eq (size + length d) cs (omega (arith, h, n)) ∙ omega (arith, n))

module _ (start end : ℕ) (small : end < 2 ^ 32) where
  abbrev at : ℕ → Stream
  at pos = record { start = start; pos = pos; end = end }

  put-at :
      (m : Bytes) (pos c : ℕ)
      → pos < end
      → put m (at pos) c ≡ ok (copy_in m pos (c ∷ []), at (pos + 1))
  unfolding put advance
  put-at m pos c h =
      let e : add32 pos 1 ≡ pos + 1 = omega (arith, h, small) in rw (lt→ltb pos end h, e) refl

  write-at :
      (m : Bytes) (pos : ℕ) (d : List ℕ)
      → pos + length d ≤ end
      → end - pos < 2 ^ 31
      → write m (at pos) d ≡ ok (copy_in m pos d, at (pos + length d))
  unfolding write signed_leb remaining advance
  write-at m pos d h s =
      let e : add32 pos (length d) ≡ pos + length d = omega (arith, h, small) in
      let t : leb ((length d + 2 ^ 31) % 2 ^ 32) ((sub32 end pos + 2 ^ 31) % 2 ^ 32) ≡ true =
        le→leb ((length d + 2 ^ 31) % 2 ^ 32) ((sub32 end pos + 2 ^ 31) % 2 ^ 32)
          (omega (arith, h, s, small)) in
      rw (t, e) refl

  send-at :
      (cs : List Call) (m : Bytes) (pos : ℕ)
      → pos + length (bytes_of cs) ≤ end
      → end - pos < 2 ^ 31
      → send (m, at pos) cs ≡ ok (copy_in m pos (bytes_of cs), at (pos + length (bytes_of cs)))
  unfolding send copy_in
  send-at [] m pos h s = ap (λ k. ok (m, at k)) (omega arith)
  send-at (put_call c ∷ cs) m pos h s =
      let n : pos + 1 + length (bytes_of cs) ≡ pos + suc (length (bytes_of cs)) = omega arith in
      rw (put-at m pos c (omega (arith, h))) (
        send-at cs (copy_in m pos (c ∷ [])) (pos + 1) (omega (arith, h)) (omega (arith, s))
        ∙ ap (λ k. ok (copy_in m pos (c ∷ bytes_of cs), at k)) n)
  send-at (write_call d ∷ cs) m pos h s =
      let n = length-append d (bytes_of cs) in
      let k : pos + length d + length (bytes_of cs) ≡ pos + length (d ++ bytes_of cs) =
        omega (arith, n) in
      rw (write-at m pos d (omega (arith, h, n)) s) (
        send-at cs (copy_in m pos d) (pos + length d) (omega (arith, h, n)) (omega (arith, s))
        ∙ rw (copy_in-append m pos d (bytes_of cs), k) refl)

-- For a value whose calls write fewer than 2^31 bytes, and a buffer that ends before the end of the
-- address space, `pack` succeeds: the size that it counted is enough, and the buffer holds what the
-- calls write, in their order, and nothing else.
pub pack-bytes_of :
    (m : Bytes) (buffer : ℕ) (cs : List Call)
    → buffer + length (bytes_of cs) < 2 ^ 32
    → length (bytes_of cs) < 2 ^ 31
    → pack m buffer cs ≡ ok (bytes_of cs)
unfolding pack pack_size make_stream
pack-bytes_of m buffer cs h s =
    let n = length (bytes_of cs) in
    let c : count_from 0 cs ≡ n = count_from-eq 0 cs (omega (arith, s)) ∙ omega arith in
    let e : add32 buffer n ≡ buffer + n = omega (arith, h) in
    let w = send-at buffer (buffer + n) h cs m buffer (omega arith) (omega (arith, s)) in
    rw (c, e, w) (ap ok (copy_out-copy_in m buffer (bytes_of cs)))
