-- ===== src/Crypto/Pem/Stripped.antt =====
-- What `strip_header_trailer` and `strip_newline` of libraries/eosiolib/core/eosio/crypto_utils.hpp leave.
use taurus_cdt.Prelude.{
  ℕ, ◌+◌, ◌-◌, ◌≡◌, refl, ap, List, [], ◌∷◌, ◌++◌, false, some, arith, length, take, drop,
  length-append, ltb,
}
use taurus_cdt.Crypto.Pem.{header, trailer, erase_trailer, strip_header_trailer}

drop-append : (xs ys : List ℕ) → drop (length xs) (xs ++ ys) ≡ ys
drop-append [] ys = refl
drop-append (x ∷ xs) ys = drop-append xs ys

take-append : (xs ys : List ℕ) → take (length xs) (xs ++ ys) ≡ xs
take-append [] ys = refl
take-append (x ∷ xs) ys = ap (λ r. x ∷ r) (take-append xs ys)

erase_trailer-append : (body : List ℕ) → erase_trailer (body ++ trailer) ≡ some body
unfolding erase_trailer
erase_trailer-append body =
    let e : length (body ++ trailer) ≡ length body + 24 = length-append body trailer in
    let s : ltb (length (body ++ trailer)) 24 ≡ false = ground arith in
    let d : length (body ++ trailer) - 24 ≡ length body = omega (arith, e) in
    rw (s, d) (ap some (take-append body trailer))

-- The text between the header and the trailer is what stripping them gives, whatever it is.
pub strip_header_trailer-around :
    (body : List ℕ) → strip_header_trailer (header ++ body ++ trailer) ≡ some body
unfolding strip_header_trailer
strip_header_trailer-around body =
    let e : length (body ++ trailer) ≡ length body + 24 = length-append body trailer in
    let d : length (header ++ body ++ trailer) - 24 ≡ length (header ++ body) = omega (arith, e) in
    let t : drop (length (header ++ body)) (header ++ body ++ trailer) ≡ trailer =
      drop-append (header ++ body) trailer in
    rw (d, t) (erase_trailer-append body)
