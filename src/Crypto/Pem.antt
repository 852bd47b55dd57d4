-- ===== src/Crypto/Pem.antt =====
-- `to_hex`, `base64_to_hex`, `strip_newline` and `strip_header_trailer` of
-- libraries/eosiolib/core/eosio/crypto_utils.hpp.
pub mod Stripped
use taurus_cdt.Prelude.{
  ℕ, ◌-◌, ◌/◌, ◌%◌, List, [], ◌∷◌, ◌||◌, not, ◌==◌, if◌then◌else◌, get_or, take, drop, length,
  list_eqb, Option, none, some, ltb,
}
use taurus_cdt.Crypto.Base64.{base64_decode}

unfoldable pub digit : ℕ → ℕ
digit n =
    get_or
      (b'0' ∷ b'1' ∷ b'2' ∷ b'3' ∷ b'4' ∷ b'5' ∷ b'6' ∷ b'7' ∷ b'8' ∷ b'9' ∷ b'a' ∷ b'b' ∷ b'c'
        ∷ b'd' ∷ b'e' ∷ b'f' ∷ [])
      n 0

unfoldable pub to_hex : List ℕ → List ℕ
unfolding digit
to_hex [] = []
to_hex (c ∷ cs) = digit (c / 16) ∷ digit (c % 16) ∷ to_hex cs

unfoldable pub base64_to_hex : List ℕ → List ℕ
unfolding base64_decode to_hex
base64_to_hex base64_str = to_hex (base64_decode base64_str)

unfoldable pub strip_newline : List ℕ → List ℕ
strip_newline [] = []
strip_newline (c ∷ cs) = let r = strip_newline cs in if c == 10 then r else c ∷ r

-- "-----BEGIN PUBLIC KEY-----"
abbrev pub header : List ℕ
header =
    b'-' ∷ b'-' ∷ b'-' ∷ b'-' ∷ b'-' ∷ b'B' ∷ b'E' ∷ b'G' ∷ b'I' ∷ b'N' ∷ b' ' ∷ b'P' ∷ b'U' ∷ b'B'
    ∷ b'L' ∷ b'I' ∷ b'C' ∷ b' ' ∷ b'K' ∷ b'E' ∷ b'Y' ∷ b'-' ∷ b'-' ∷ b'-' ∷ b'-' ∷ b'-' ∷ []

-- "-----END PUBLIC KEY-----"
abbrev pub trailer : List ℕ
trailer =
    b'-' ∷ b'-' ∷ b'-' ∷ b'-' ∷ b'-' ∷ b'E' ∷ b'N' ∷ b'D' ∷ b' ' ∷ b'P' ∷ b'U' ∷ b'B' ∷ b'L' ∷ b'I'
    ∷ b'C' ∷ b' ' ∷ b'K' ∷ b'E' ∷ b'Y' ∷ b'-' ∷ b'-' ∷ b'-' ∷ b'-' ∷ b'-' ∷ []

-- The second `erase`. It is `none` where `r.end() - trailer.size()` lies before the start of the text,
-- for which C++ has no behaviour.
unfoldable pub erase_trailer : List ℕ → Option (List ℕ)
erase_trailer r =
    if ltb (length r) (length trailer) then none else some (take (length r - length trailer) r)

-- A text with the header has at least as many characters as the trailer.
unfoldable pub strip_header_trailer : List ℕ → Option (List ℕ)
unfolding erase_trailer
strip_header_trailer r =
    if not (list_eqb (take (length header) r) header)
      || not (list_eqb (drop (length r - length trailer) r) trailer)
    then some []
    else erase_trailer (drop (length header) r)
