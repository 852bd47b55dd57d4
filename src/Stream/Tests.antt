-- ===== src/Stream/Tests.antt =====
-- A buffer of eight bytes.
use taurus_cdt.Prelude.{ℕ, ◌≡◌, List, [], ◌∷◌, ok, arith}
use taurus_cdt.Stream.{
  Bytes, Stream, read, read_reuse_storage, get, put, pack, put_call, write_call,
}
use taurus_cdt.Stream.Bounds.{InBuffer, Takes, calls-Takes}
use taurus_cdt.Stream.Packing.{pack-bytes_of}

abbrev blank : Bytes
blank a = 0

abbrev half : Stream
half = record { start = 64; pos = 68; end = 72 }

half-InBuffer : InBuffer half
half-InBuffer = record { from_start = omega arith; to_end = omega arith; small = omega arith }

calls-Takes_example :
    Takes {A = List ℕ × Stream} half 5 (λ r. r.1) (read blank half 5)
    × (Takes {A = ℕ × Stream} half 5 (λ r. r.1) (read_reuse_storage half 5)
        × (Takes {A = ℕ × Stream} half 1 (λ r. r.1) (get blank half)
            × Takes {A = Bytes × Stream} half 1 (λ r. r.1) (put blank half 7)))
calls-Takes_example = calls-Takes blank half 5 7 half-InBuffer

pack-bytes_of_example :
    pack blank 64 (put_call 9 ∷ write_call (1 ∷ 2 ∷ []) ∷ []) ≡ ok (9 ∷ 1 ∷ 2 ∷ [])
pack-bytes_of_example =
    pack-bytes_of blank 64 (put_call 9 ∷ write_call (1 ∷ 2 ∷ []) ∷ []) (omega arith) (omega arith)
