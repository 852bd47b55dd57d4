-- ===== src/Stream.antt =====
-- `datastream` of libraries/eosiolib/core/eosio/datastream.hpp, over a buffer and as a counter of bytes.
-- Pointers and `size_t` are 32-bit words, and the memory is a byte for each address.
pub mod Size
pub mod Bounds
pub mod Packing
mod Tests
use taurus_cdt.Prelude.{
  ℕ, zero, suc, ◌+◌, ◌%◌, ◌^◌, List, [], ◌∷◌, Bool, true, ◌&&◌, ◌==◌, ltb, leb, if◌then◌else◌,
  Result, ok, err, ◌>>=◌, ◌>>◌, check, add32, sub32, length,
}
use taurus_cdt.Stream.Size

abbrev pub Bytes : Type 0
Bytes = ℕ → ℕ

unfoldable pub copy_out : Bytes → ℕ → ℕ → List ℕ
copy_out m a zero = []
copy_out m a (suc n) = m a ∷ copy_out m (a + 1) n

unfoldable pub copy_in : Bytes → ℕ → List ℕ → Bytes
copy_in m a [] = m
copy_in m a (c ∷ cs) = copy_in (λ b. if a == b then c else m b) (a + 1) cs

pub data Failure : Type 0 where
  overrun read_failed write_failed put_failed get_failed : Failure

pub record Stream : Type 0 where
  pub start : ℕ
  pub pos : ℕ
  pub end : ℕ

unfoldable pub make_stream : ℕ → ℕ → Stream
make_stream start s = record { start = start; pos = start; end = add32 start s }

-- `size_t(_end - _pos)`
unfoldable pub remaining : Stream → ℕ
remaining ds = sub32 ds.end ds.pos

unfoldable pub check_available : Stream → ℕ → Result Failure (Unit {0})
unfolding remaining
check_available ds size = check (leb size (remaining ds)) overrun

unfoldable pub advance : Stream → ℕ → Stream
advance ds s = record ds { pos = add32 ds.pos s }

unfoldable pub skip : Stream → ℕ → Result Failure Stream
unfolding advance
skip ds s = check (leb (advance ds s).pos ds.end) overrun >> ok (advance ds s)

unfoldable pub read : Bytes → Stream → ℕ → Result Failure (List ℕ × Stream)
unfolding remaining advance copy_out
read m ds s = check (leb s (remaining ds)) read_failed >> ok (copy_out m ds.pos s, advance ds s)

-- The result is a pointer into the buffer.
unfoldable pub read_reuse_storage : Stream → ℕ → Result Failure (ℕ × Stream)
unfolding remaining advance
read_reuse_storage ds size = check (leb size (remaining ds)) overrun >> ok (ds.pos, advance ds size)

-- `a <= b` for words that are read as signed.
unfoldable pub signed_leb : ℕ → ℕ → Bool
signed_leb a b = leb ((a + 2 ^ 31) % 2 ^ 32) ((b + 2 ^ 31) % 2 ^ 32)

-- `write( d, s )`, where `d` points to the bytes. The difference of pointers and `s` are compared as
-- signed words.
unfoldable pub write : Bytes → Stream → List ℕ → Result Failure (Bytes × Stream)
unfolding remaining signed_leb advance copy_in
write m ds d =
    check (signed_leb (length d) (remaining ds)) write_failed
    >> ok (copy_in m ds.pos d, advance ds (length d))

unfoldable pub put : Bytes → Stream → ℕ → Result Failure (Bytes × Stream)
unfolding advance copy_in
put m ds c = check (ltb ds.pos ds.end) put_failed >> ok (copy_in m ds.pos (c ∷ []), advance ds 1)

unfoldable pub get : Bytes → Stream → Result Failure (ℕ × Stream)
unfolding advance
get m ds = check (ltb ds.pos ds.end) get_failed >> ok (m ds.pos, advance ds 1)

unfoldable pub valid : Stream → Bool
valid ds = leb ds.pos ds.end && leb ds.start ds.pos

unfoldable pub seekp : Stream → ℕ → Bool × Stream
seekp ds p = (leb (add32 ds.start p) ds.end, record ds { pos = add32 ds.start p })

unfoldable pub tellp : Stream → ℕ
tellp ds = sub32 ds.pos ds.start

-- The calls by which a value is serialised.
pub data Call : Type 0 where
  put_call : ℕ → Call
  write_call : List ℕ → Call

unfoldable pub send : Bytes × Stream → List Call → Result Failure (Bytes × Stream)
unfolding put write
send s [] = ok s
send (m, ds) (put_call c ∷ cs) = put m ds c >>= λ s. send s cs
send (m, ds) (write_call d ∷ cs) = write m ds d >>= λ s. send s cs

-- `pack_size`, for a value that is serialised by these calls.
unfoldable pub count_from : ℕ → List Call → ℕ
unfolding Size.put Size.write
count_from size [] = size
count_from size (put_call c ∷ cs) = count_from (Size.put size c) cs
count_from size (write_call d ∷ cs) = count_from (Size.write size d) cs

unfoldable pub pack_size : List Call → ℕ
unfolding count_from
pack_size cs = count_from 0 cs

-- `pack`, into a buffer at the address that the vector has after `resize`.
unfoldable pub pack : Bytes → ℕ → List Call → Result Failure (List ℕ)
unfolding send pack_size make_stream copy_out
pack m buffer cs = do
  (m', ds) ← send (m, make_stream buffer (pack_size cs)) cs
  ok (copy_out m' buffer (pack_size cs))
