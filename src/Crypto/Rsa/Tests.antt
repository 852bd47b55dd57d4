-- ===== src/Crypto/Rsa/Tests.antt =====
-- A small key, and the theorems of crypto_utils.hpp at concrete texts.
use taurus_cdt.Prelude.{ℕ, ◌≡◌, refl, List, [], ◌∷◌, ◌++◌, true, some, arith, false}
use taurus_cdt.Crypto.Base64.{base64_decode}
use taurus_cdt.Crypto.Base64.RoundTrip.{base64_encode, base64_decode-encode}
use taurus_cdt.Crypto.Pem.{header, trailer, to_hex, strip_header_trailer}
use taurus_cdt.Crypto.Pem.Stripped.{strip_header_trailer-around}
use taurus_cdt.Crypto.Rsa.{
  Parsed, start, without_zero, rsa_oid, parse_key, read_len, read_seq_len, read_oid, get_null,
  read_bit_str, read_int,
}
use taurus_cdt.Crypto.Rsa.Bounds.{InKey, reads-InKey}
use taurus_cdt.Crypto.Rsa.Reads.{short, long}
use taurus_cdt.Crypto.Rsa.Reads.Whole.{Lengths, Fits, key_of, parse_key-lem}

base64_decode-encode_example :
    base64_decode (base64_encode (0 ∷ 255 ∷ 16 ∷ 7 ∷ [])) ≡ 0 ∷ 255 ∷ 16 ∷ 7 ∷ []
base64_decode-encode_example =
    base64_decode-encode (0 ∷ 255 ∷ 16 ∷ 7 ∷ [])
      (omega arith, (omega arith, (omega arith, (omega arith, tt))))

strip_header_trailer-around_example :
    strip_header_trailer (header ++ (b'M' ∷ b'I' ∷ []) ++ trailer) ≡ some (b'M' ∷ b'I' ∷ [])
strip_header_trailer-around_example = strip_header_trailer-around (b'M' ∷ b'I' ∷ [])

abbrev small_lengths : Lengths
small_lengths = record {
  outer = long (27 ∷ []);
  inner = short 13;
  oid = short 9;
  bits = short 10;
  numbers = short 7;
  modulus = short 2;
  exponent = short 1;
}

abbrev small_modulus : List ℕ
small_modulus = 0 ∷ 200 ∷ []

small_Fits : Fits small_lengths small_modulus (3 ∷ [])
unfolding key_of rsa_oid without_zero
small_Fits = record {
  valid = (
    (omega arith, (omega arith, omega arith)),
    (omega arith, (omega arith, (omega arith, (omega arith, (omega arith, omega arith))))),
  );
  outer_is = omega arith;
  outer_some = omega arith;
  inner_some = omega arith;
  oid_is = refl;
  bits_some = omega arith;
  numbers_some = omega arith;
  modulus_is = refl;
  exponent_is = refl;
  small = omega arith;
  modulus_some = omega arith;
  exponent_some = omega arith;
}

abbrev unset : Parsed
unset = record { code_ok = false; mod_hex = []; exp_hex = [] }

parse_key-lem_example : parse_key (key_of small_lengths small_modulus (3 ∷ [])) unset ≡ record {
  code_ok = true;
  mod_hex = to_hex (without_zero small_modulus);
  exp_hex = to_hex (without_zero (3 ∷ []));
}
parse_key-lem_example = parse_key-lem small_lengths small_modulus (3 ∷ []) unset small_Fits

-- A key that ends in the middle of a length.
abbrev cut : List ℕ
cut = 48 ∷ 130 ∷ 1 ∷ []

reads-InKey_example :
    InKey cut (read_len cut start).1.1
    × (InKey cut (read_seq_len cut start).1.1
        × (InKey cut (read_oid cut start).1
            × (InKey cut (get_null cut start).1
                × (InKey cut (read_bit_str cut start).1 × InKey cut (read_int cut start).1))))
reads-InKey_example = reads-InKey cut start (omega arith)
