-- ===== src/Crypto/Base64.antt =====
-- `base64_decode` of libraries/eosiolib/core/eosio/crypto_utils.hpp. Characters and bytes are numbers
-- below 256.
pub mod RoundTrip
use taurus_cdt.Prelude.{
  ℕ, suc, ◌+◌, ◌*◌, ◌/◌, ◌%◌, List, [], ◌∷◌, ◌++◌, Bool, not, ◌&&◌, ◌||◌, ◌==◌, leb, if◌then◌else◌,
  get_or, take, length,
}

-- `isalnum( c )`, in the C locale.
unfoldable pub isalnum : ℕ → Bool
isalnum c = leb 48 c && leb c 57 || (leb 65 c && leb c 90 || leb 97 c && leb c 122)

unfoldable pub is_base64_char : ℕ → Bool
unfolding isalnum
is_base64_char c = isalnum c || (c == 43 || c == 47)

unfoldable pub base64_lookup : List ℕ
base64_lookup =
    255 ∷ 255 ∷ 255 ∷ 255 ∷ 255 ∷ 255 ∷ 255 ∷ 255 ∷ 255 ∷ 255 ∷ 255 ∷ 255 ∷ 255 ∷ 255 ∷ 255 ∷ 255
    ∷ 255 ∷ 255 ∷ 255 ∷ 255 ∷ 255 ∷ 255 ∷ 255 ∷ 255 ∷ 255 ∷ 255 ∷ 255 ∷ 255 ∷ 255 ∷ 255 ∷ 255 ∷ 255
    ∷ 255 ∷ 255 ∷ 255 ∷ 255 ∷ 255 ∷ 255 ∷ 255 ∷ 255 ∷ 255 ∷ 255 ∷ 255 ∷ 62 ∷ 255 ∷ 255 ∷ 255 ∷ 63
    ∷ 52 ∷ 53 ∷ 54 ∷ 55 ∷ 56 ∷ 57 ∷ 58 ∷ 59 ∷ 60 ∷ 61 ∷ 255 ∷ 255 ∷ 255 ∷ 255 ∷ 255 ∷ 255 ∷ 255 ∷ 0
    ∷ 1 ∷ 2 ∷ 3 ∷ 4 ∷ 5 ∷ 6 ∷ 7 ∷ 8 ∷ 9 ∷ 10 ∷ 11 ∷ 12 ∷ 13 ∷ 14 ∷ 15 ∷ 16 ∷ 17 ∷ 18 ∷ 19 ∷ 20 ∷ 21
    ∷ 22 ∷ 23 ∷ 24 ∷ 25 ∷ 255 ∷ 255 ∷ 255 ∷ 255 ∷ 255 ∷ 255 ∷ 26 ∷ 27 ∷ 28 ∷ 29 ∷ 30 ∷ 31 ∷ 32 ∷ 33
    ∷ 34 ∷ 35 ∷ 36 ∷ 37 ∷ 38 ∷ 39 ∷ 40 ∷ 41 ∷ 42 ∷ 43 ∷ 44 ∷ 45 ∷ 46 ∷ 47 ∷ 48 ∷ 49 ∷ 50 ∷ 51 ∷ 255
    ∷ 255 ∷ 255 ∷ 255 ∷ 255 ∷ []

-- Meant at `c < 128`.
unfoldable pub look_up : ℕ → ℕ
unfolding base64_lookup
look_up c = get_or base64_lookup c 255

-- `char_array_3`, from the values of the four characters.
unfoldable pub char_array_3 : ℕ → ℕ → ℕ → ℕ → List ℕ
char_array_3 a b c d =
    (a * 4 + b / 16 % 4) % 256 ∷ (b % 16 * 16 + c / 4 % 16) % 256 ∷ (c % 4 * 64 + d) % 256 ∷ []

-- The values of the characters in `char_array_4`, which are 0 where there is none.
unfoldable pub decode_quad : List ℕ → List ℕ
unfolding look_up char_array_3
decode_quad xs =
    char_array_3 (look_up (get_or xs 0 0)) (look_up (get_or xs 1 0)) (look_up (get_or xs 2 0))
      (look_up (get_or xs 3 0))

-- What stands after the loop: `char_array_4` has `i` characters.
unfoldable pub finish : List ℕ → List ℕ → List ℕ
unfolding decode_quad
finish [] ret = ret
finish (x ∷ xs) ret = ret ++ take (length xs) (decode_quad (x ∷ xs))

-- The loop over the characters, with those in `char_array_4` and the bytes so far.
unfoldable pub decode_loop : List ℕ → List ℕ → List ℕ → List ℕ
unfolding is_base64_char decode_quad finish
decode_loop [] char_array_4 ret = finish char_array_4 ret
decode_loop (x ∷ xs) char_array_4 ret =
    let next = char_array_4 ++ x ∷ [] in
    let full = length next == 4 in
    let rest =
      decode_loop xs (if full then [] else next)
        (if full then (ret ++ decode_quad next) else ret) in
    if x == 61 then finish char_array_4 ret else (if not (is_base64_char x) then [] else rest)

unfoldable pub base64_decode : List ℕ → List ℕ
unfolding decode_loop
base64_decode encoded_string = decode_loop encoded_string [] []
