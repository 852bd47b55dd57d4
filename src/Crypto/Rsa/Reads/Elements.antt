-- ===== src/Crypto/Rsa/Reads/Elements.antt =====
-- `rsa_key_parser` of libraries/eosiolib/core/eosio/crypto_utils.hpp: each of the reads at an element in
-- DER.
use taurus_cdt.Prelude.{
  ℕ, ◌+◌, ◌-◌, ◌^◌, ◌<◌, ◌≤◌, ◌≡◌, refl, ap, ◌∙◌, List, [], ◌∷◌, ◌++◌, true, false, ◌==◌, leb, ltb,
  take, drop, length, length-append, arith,
}
use taurus_cdt.Crypto.Rsa.{
  Parser, get_next, expect, read_len, read_seq_len, read_chars, read_oid, get_null, read_bit_str,
  read_int, without_zero,
}
use taurus_cdt.Crypto.Rsa.Reads.{
  Len, short, long, der, value, num_bytes, IsLen, At, get_next-At, expect-At, read_len_bytes-At,
  get_next-moves, get_next-ends, take-over, drop-over, drop-length,
}

-- The elements of a key, before what follows them.
abbrev pub sequence : Len → List ℕ → List ℕ
sequence l rest = 48 ∷ (der l ++ rest)

abbrev pub object_id : Len → List ℕ → List ℕ → List ℕ
object_id l chars rest = 6 ∷ (der l ++ (chars ++ rest))

abbrev pub null : List ℕ → List ℕ
null rest = 5 ∷ 0 ∷ rest

abbrev pub bit_string : Len → List ℕ → List ℕ
bit_string l rest = 3 ∷ (der l ++ (0 ∷ rest))

abbrev pub integer : Len → List ℕ → List ℕ → List ℕ
integer l chars rest = 2 ∷ (der l ++ (chars ++ rest))

pub longer : (xs ys : List ℕ) → 1 ≤ length ys → 1 ≤ length (xs ++ ys)
longer xs ys h = omega (arith, h, length-append xs ys)

module _ (key : List ℕ) (small : length key < 2 ^ 32) where
  read_len-At :
      (l : Len) (p : Parser) (rest : List ℕ)
      → IsLen l
      → At key small p (der l ++ rest)
      → 1 ≤ length rest
      → ((read_len key p).0 ≡ value l)
        × (((read_len key p).1.0 ≡ num_bytes l) × At key small (read_len key p).1.1 rest)
  unfolding read_len
  read_len-At (short n) p rest v h r =
      let (f, (c, a)) = get_next-At key small p n rest h r in
      let t : ltb n 128 ≡ true = ground arith in rw (f, c, t) (refl, (refl, a))
  read_len-At (long bs) p rest (v, (w, u)) h r =
      let (f, (c, a)) =
        get_next-At key small p (128 + length bs) (bs ++ rest) h (longer bs rest r) in
      let t : ltb (128 + length bs) 128 ≡ false = ground arith in
      let d : ltb 128 (128 + length bs) ≡ true = ground arith in
      let e : leb (128 + length bs) 132 ≡ true = ground arith in
      let m : 128 + length bs - 128 ≡ length bs = omega arith in
      let (x, (y, z)) = read_len_bytes-At key small bs 0 0 (get_next key 1 p).1 rest u a r in
      rw (f, c, t, d, e, m) (x, (y ∙ omega arith, z))

  pub read_seq_len-At :
      (l : Len) (p : Parser) (rest : List ℕ)
      → IsLen l
      → At key small p (sequence l rest)
      → 1 ≤ length rest
      → ((read_seq_len key p).0 ≡ value l)
        × (((read_seq_len key p).1.0 ≡ num_bytes l) × At key small (read_seq_len key p).1.1 rest)
  unfolding read_seq_len
  read_seq_len-At l p rest v h r =
      let (f, a) = expect-At key small p 48 (der l ++ rest) h (longer (der l) rest r) in
      rw f (read_len-At l (expect key 48 p).1 rest v a r)

  read_chars-At :
      (chars : List ℕ) (p : Parser) (rest : List ℕ)
      → 1 ≤ length chars
      → At key small p (chars ++ rest)
      → 1 ≤ length rest
      → ((read_chars key (length chars) p).0 ≡ chars)
        × At key small (read_chars key (length chars) p).1 rest
  unfolding read_chars
  read_chars-At chars p rest v h r =
      let e = get_next-moves key small (length chars) p v (
        omega (
          arith,
          r,
          drop-length p.pos key (chars ++ rest) (longer chars rest r) h,
          length-append chars rest,
        )) in
      let t : take (length chars) (drop p.pos key) ≡ chars =
        ap (take (length chars)) h ∙ take-over chars rest in
      (
        rw (ap (λ x. x.0) e, t) refl,
        ap (λ x. drop x.1.pos key) e ∙ drop-over chars p.pos key rest h,
      )

  read_chars-end :
      (chars : List ℕ) (p : Parser)
      → 1 ≤ length chars
      → At key small p (chars ++ [])
      → (read_chars key (length chars) p).0 ≡ chars
  unfolding read_chars
  read_chars-end chars p v h =
      let n = length-append chars [] in
      let e =
        get_next-ends key small (length chars) p v
          (omega (arith, drop-length p.pos key (chars ++ []) (omega (arith, n, v)) h, n)) in
      let t : take (length chars) (drop p.pos key) ≡ chars =
        ap (take (length chars)) h ∙ take-over chars [] in
      rw (ap (λ x. x.0) e, t) refl

  pub read_oid-At :
      (l : Len) (chars : List ℕ) (p : Parser) (rest : List ℕ)
      → IsLen l
      → value l ≡ length chars
      → 1 ≤ length chars
      → At key small p (object_id l chars rest)
      → 1 ≤ length rest
      → ((read_oid key p).0 ≡ chars) × At key small (read_oid key p).1 rest
  unfolding read_oid
  read_oid-At l chars p rest v e c h r =
      let (f, a) =
        expect-At key small p 6 (der l ++ (chars ++ rest)) h
          (longer (der l) (chars ++ rest) (longer chars rest r)) in
      let (x, (y, z)) =
        read_len-At l (expect key 6 p).1 (chars ++ rest) v a (longer chars rest r) in
      let n : (length chars == 0) ≡ false = ground arith in
      rw (f, x, e, n) (read_chars-At chars (read_len key (expect key 6 p).1).1.1 rest c z r)

  pub get_null-At :
      (p : Parser) (rest : List ℕ)
      → At key small p (null rest)
      → 1 ≤ length rest
      → ((get_null key p).0 ≡ true) × At key small (get_null key p).1 rest
  unfolding get_null
  get_null-At p rest h r =
      let (f, a) = expect-At key small p 5 (0 ∷ rest) h (omega arith) in
      rw f (expect-At key small (expect key 5 p).1 0 rest a r)

  pub read_bit_str-At :
      (l : Len) (p : Parser) (rest : List ℕ)
      → IsLen l
      → At key small p (bit_string l rest)
      → 1 ≤ length rest
      → ((read_bit_str key p).0 ≡ value l) × At key small (read_bit_str key p).1 rest
  unfolding read_bit_str
  read_bit_str-At l p rest v h r =
      let (f, a) =
        expect-At key small p 3 (der l ++ (0 ∷ rest)) h (longer (der l) (0 ∷ rest) (omega arith)) in
      let (x, (y, z)) = read_len-At l (expect key 3 p).1 (0 ∷ rest) v a (omega arith) in
      let (g, (c, b)) = get_next-At key small (read_len key (expect key 3 p).1).1.1 0 rest z r in
      rw (f, g) (x, b)

  pub read_int-At :
      (l : Len) (chars : List ℕ) (p : Parser) (rest : List ℕ)
      → IsLen l
      → value l ≡ length chars
      → 1 ≤ length chars
      → At key small p (integer l chars rest)
      → 1 ≤ length rest
      → ((read_int key p).0 ≡ without_zero chars) × At key small (read_int key p).1 rest
  unfolding read_int
  read_int-At l chars p rest v e c h r =
      let (f, a) =
        expect-At key small p 2 (der l ++ (chars ++ rest)) h
          (longer (der l) (chars ++ rest) (longer chars rest r)) in
      let (x, (y, z)) =
        read_len-At l (expect key 2 p).1 (chars ++ rest) v a (longer chars rest r) in
      let n : (length chars == 0) ≡ false = ground arith in
      let (s, t) = read_chars-At chars (read_len key (expect key 2 p).1).1.1 rest c z r in
      rw (f, x, e, n) (ap without_zero s, t)

  pub read_int-end :
      (l : Len) (chars : List ℕ) (p : Parser)
      → IsLen l
      → value l ≡ length chars
      → 1 ≤ length chars
      → At key small p (integer l chars [])
      → (read_int key p).0 ≡ without_zero chars
  unfolding read_int
  read_int-end l chars p v e c h =
      let k : 1 ≤ length (chars ++ []) = omega (arith, length-append chars [], c) in
      let (f, a) =
        expect-At key small p 2 (der l ++ (chars ++ [])) h (longer (der l) (chars ++ []) k) in
      let (x, (y, z)) = read_len-At l (expect key 2 p).1 (chars ++ []) v a k in
      let n : (length chars == 0) ≡ false = ground arith in
      rw (f, x, e, n)
        (ap without_zero (read_chars-end chars (read_len key (expect key 2 p).1).1.1 c z))
