-- ===== src/Crypto/Rsa/Reads/Whole.antt =====
-- `parse_rsa_pubkey` of libraries/eosiolib/core/eosio/crypto_utils.hpp on a whole key in DER.
use taurus_cdt.Prelude.{
  ℕ, ◌+◌, ◌^◌, ◌<◌, ◌≤◌, ◌≡◌, refl, sym, ◌∙◌, List, [], ◌∷◌, true, false, ◌==◌, length, sub32,
  arith, list_eqb,
}
use taurus_cdt.Crypto.Pem.{to_hex}
use taurus_cdt.Crypto.Rsa.{
  Parser, Parsed, start, rsa_oid, read_seq_len, read_oid, get_null, read_bit_str, read_int,
  without_zero, parse_numbers, parse_key,
}
use taurus_cdt.Crypto.Rsa.Reads.{Len, value, num_bytes, IsLen, At}
use taurus_cdt.Crypto.Rsa.Reads.Elements.{
  sequence, object_id, null, bit_string, integer, read_seq_len-At, read_oid-At, get_null-At,
  read_bit_str-At, read_int-At, read_int-end,
}

-- The lengths that a key has.
pub record Lengths : Type 0 where
  pub outer : Len
  pub inner : Len
  pub oid : Len
  pub bits : Len
  pub numbers : Len
  pub modulus : Len
  pub exponent : Len

-- A public key, with the bytes of the two numbers.
unfoldable pub key_of : Lengths → List ℕ → List ℕ → List ℕ
unfolding rsa_oid
key_of l m e = sequence l.outer (
    sequence l.inner (
      object_id l.oid rsa_oid (
        null (
          bit_string l.bits (sequence l.numbers (integer l.modulus m (integer l.exponent e [])))))))

-- The lengths are those of what they stand before, or are not 0 where the parser only asks for that.
pub record Fits (l : Lengths) (m e : List ℕ) : Type 0 where
  pub valid :
      IsLen l.outer
      × (IsLen l.inner
          × (IsLen l.oid
              × (IsLen l.bits × (IsLen l.numbers × (IsLen l.modulus × IsLen l.exponent)))))
  pub outer_is : value l.outer + 2 + num_bytes l.outer ≡ length (key_of l m e)
  pub outer_some : 1 ≤ value l.outer
  pub inner_some : 1 ≤ value l.inner
  pub oid_is : value l.oid ≡ 9
  pub bits_some : 1 ≤ value l.bits
  pub numbers_some : 1 ≤ value l.numbers
  pub modulus_is : value l.modulus ≡ length m
  pub exponent_is : value l.exponent ≡ length e
  pub small : length (key_of l m e) < 2 ^ 32
  -- There are bytes besides a leading 0.
  pub modulus_some : 1 ≤ length (without_zero m)
  pub exponent_some : 1 ≤ length (without_zero e)

without_zero-le : (xs : List ℕ) → 1 ≤ length (without_zero xs) → 1 ≤ length xs
unfolding without_zero
without_zero-le [] h = h
without_zero-le (x ∷ xs) h = omega arith

one_byte : (x : ℕ) (xs : List ℕ) → 1 ≤ length (x ∷ xs)
one_byte x xs = omega arith

list_eqb_refl : list_eqb rsa_oid rsa_oid ≡ true
unfolding rsa_oid
list_eqb_refl = refl

length-rsa_oid : length rsa_oid ≡ 9
unfolding rsa_oid
length-rsa_oid = refl

zero_test : (n : ℕ) → 1 ≤ n → (n == 0) ≡ false
zero_test n h = ground arith

parse_numbers-lem :
    (key : List ℕ) (small : length key < 2 ^ 32) (lm le : Len) (m e : List ℕ) (p : Parser)
    (before : Parsed)
    → IsLen lm
    → IsLen le
    → value lm ≡ length m
    → value le ≡ length e
    → 1 ≤ length (without_zero m)
    → 1 ≤ length (without_zero e)
    → At key small p (integer lm m (integer le e []))
    → parse_numbers key p before ≡ record {
      code_ok = true;
      mod_hex = to_hex (without_zero m);
      exp_hex = to_hex (without_zero e);
    }
unfolding parse_numbers
parse_numbers-lem key small lm le m e p before vm ve em ee sm se h =
    let (x, a) =
      read_int-At key small lm m p (integer le e []) vm em (without_zero-le m sm) h
        (one_byte 2 _) in
    let y = read_int-end key small le e (read_int key p).1 ve ee (without_zero-le e se) a in
    let s : (length (without_zero m) == 0) ≡ false = zero_test (length (without_zero m)) sm in
    let t : (length (without_zero e) == 0) ≡ false = zero_test (length (without_zero e)) se in
    rw (x, y, s, t) refl

outer_test :
    (size num len : ℕ)
    → len + 2 + num ≡ size
    → size < 2 ^ 32
    → (sub32 (sub32 size 2) num == len) ≡ true
outer_test size num len h u = ground arith

key_of-sequence :
    (l : Lengths) (m e : List ℕ)
    → key_of l m e
      ≡ sequence l.outer (
          sequence l.inner (
            object_id l.oid rsa_oid (
              null (
                bit_string l.bits
                  (sequence l.numbers (integer l.modulus m (integer l.exponent e [])))))))
unfolding key_of
key_of-sequence l m e = refl

one_le_nine : 1 ≤ 9
one_le_nine = omega arith

-- A key in DER whose text is below 2 ^ 32 bytes is accepted, whatever the form of its lengths, and the
-- modulus and the exponent come back in hex, each without its first byte where that is 0.
pub parse_key-lem :
    (l : Lengths) (m e : List ℕ) (before : Parsed)
    → Fits l m e
    → parse_key (key_of l m e) before ≡ record {
      code_ok = true;
      mod_hex = to_hex (without_zero m);
      exp_hex = to_hex (without_zero e);
    }
unfolding parse_key
parse_key-lem l m e before fits =
    let key = key_of l m e in
    let small = fits.small in
    let (v0, (v1, (v2, (v3, (v4, (v5, v6)))))) = fits.valid in
    let t6 = integer l.modulus m (integer l.exponent e []) in
    let t5 = sequence l.numbers t6 in
    let t4 = bit_string l.bits t5 in
    let t3 = null t4 in
    let t2 = object_id l.oid rsa_oid t3 in
    let t1 = sequence l.inner t2 in
    let p0 = (read_seq_len key start).1.1 in
    let p1 = (read_seq_len key p0).1.1 in
    let p2 = (read_oid key p1).1 in
    let p3 = (get_null key p2).1 in
    let p4 = (read_bit_str key p3).1 in
    let p5 = (read_seq_len key p4).1.1 in
    let (x0, (n0, a0)) =
      read_seq_len-At key small l.outer start t1 v0 (key_of-sequence l m e) (one_byte 48 _) in
    let (x1, (n1, a1)) = read_seq_len-At key small l.inner p0 t2 v1 a0 (one_byte 6 _) in
    let (x2, a2) =
      read_oid-At key small l.oid rsa_oid p1 t3 v2 (fits.oid_is ∙ sym length-rsa_oid)
        (rw length-rsa_oid one_le_nine) a1 (one_byte 5 (0 ∷ t4)) in
    let (x3, a3) = get_null-At key small p2 t4 a2 (one_byte 3 _) in
    let (x4, a4) = read_bit_str-At key small l.bits p3 t5 v3 a3 (one_byte 48 _) in
    let (x5, (n5, a5)) = read_seq_len-At key small l.numbers p4 t6 v4 a4 (one_byte 2 _) in
    let r =
      parse_numbers-lem key small l.modulus l.exponent m e p5 before v5 v6 fits.modulus_is
        fits.exponent_is fits.modulus_some fits.exponent_some a5 in
    let z0 = zero_test (value l.outer) fits.outer_some in
    let z1 = zero_test (value l.inner) fits.inner_some in
    let z4 = zero_test (value l.bits) fits.bits_some in
    let z5 = zero_test (value l.numbers) fits.numbers_some in
    let o = outer_test (length key) (num_bytes l.outer) (value l.outer) fits.outer_is small in
    rw (x0, n0, z0, o, x1, z1, x2, list_eqb_refl, x3, x4, z4, x5, z5) r
