-- ===== src/Crypto/Rsa/Reads.antt =====
-- `rsa_key_parser` of libraries/eosiolib/core/eosio/crypto_utils.hpp: what a read returns at an element
-- in DER, where it stands after it, and `parse_rsa_pubkey` on a whole key.
pub mod Elements
pub mod Whole
use taurus_cdt.Prelude.{
  ℕ, zero, suc, ◌+◌, ◌-◌, ◌*◌, ◌%◌, ◌^◌, ◌<◌, ◌≤◌, ◌≡◌, refl, sym, ap, ◌∙◌, subst, List, [], ◌∷◌,
  ◌++◌, Bool, true, false, not, ◌&&◌, ◌||◌, ◌==◌, leb, ltb, if◌then◌else◌, get_or, take, drop,
  length, length-append, add32, sub32, arith,
}
use taurus_cdt.Crypto.Rsa.{
  Parser, get_next, expect, read_len_bytes, read_len, read_seq_len, read_chars, read_oid, get_null,
  read_bit_str, read_int, without_zero,
}

pub drop-cons_length :
    (n y : ℕ) (xs ys : List ℕ) → drop n xs ≡ y ∷ ys → length xs ≡ n + suc (length ys)
drop-cons_length zero y xs ys h = ap length h ∙ omega arith
drop-cons_length (suc n) y [] ys h = cc
drop-cons_length (suc n) y (x ∷ xs) ys h = omega (arith, drop-cons_length n y xs ys h)

pub drop-length :
    (n : ℕ) (xs ys : List ℕ) → 1 ≤ length ys → drop n xs ≡ ys → length xs ≡ n + length ys
drop-length n xs [] l h = absurd (omega (arith, l))
drop-length n xs (y ∷ ys) l h = drop-cons_length n y xs ys h

pub get_or-drop : (n y d : ℕ) (xs ys : List ℕ) → drop n xs ≡ y ∷ ys → get_or xs n d ≡ y
get_or-drop zero y d xs ys h = ap (λ r. get_or r 0 d) h
get_or-drop (suc n) y d [] ys h = cc
get_or-drop (suc n) y d (x ∷ xs) ys h = get_or-drop n y d xs ys h

drop-suc : (n y : ℕ) (xs ys : List ℕ) → drop n xs ≡ y ∷ ys → drop (suc n) xs ≡ ys
drop-suc zero y xs ys h = ap (drop 1) h
drop-suc (suc n) y [] ys h = cc
drop-suc (suc n) y (x ∷ xs) ys h = drop-suc n y xs ys h

pub drop-over :
    (us : List ℕ) (n : ℕ) (xs bs : List ℕ) → drop n xs ≡ us ++ bs → drop (n + length us) xs ≡ bs
drop-over [] n xs bs h = subst (λ k. drop k xs ≡ bs) (omega arith) h
drop-over (a ∷ us) n xs bs h =
    subst (λ k. drop k xs ≡ bs) (omega arith)
      (drop-over us (suc n) xs bs (drop-suc n a xs (us ++ bs) h))

pub take-over : (us bs : List ℕ) → take (length us) (us ++ bs) ≡ us
take-over [] bs = refl
take-over (a ∷ us) bs = ap (λ r. a ∷ r) (take-over us bs)

-- A length in DER.
pub data Len : Type 0 where
  short : ℕ → Len
  long : List ℕ → Len

abbrev pub der : Len → List ℕ
der (short n) = n ∷ []
der (long bs) = (128 + length bs) ∷ bs

abbrev pub big_endian : ℕ → List ℕ → ℕ
big_endian acc [] = acc
big_endian acc (b ∷ bs) = big_endian (acc * 256 + b) bs

abbrev pub value : Len → ℕ
value (short n) = n
value (long bs) = big_endian 0 bs

abbrev pub num_bytes : Len → ℕ
num_bytes (short n) = 0
num_bytes (long bs) = length bs

abbrev pub IsLen : Len → Type 0
IsLen (short n) = n < 128
IsLen (long bs) = (1 ≤ length bs) × ((length bs ≤ 4) × (big_endian 0 bs < 2 ^ 32))

big_endian-le : (acc : ℕ) (bs : List ℕ) → acc ≤ big_endian acc bs
big_endian-le acc [] = omega arith
big_endian-le acc (b ∷ bs) = omega (arith, big_endian-le (acc * 256 + b) bs)

module _ (key : List ℕ) (small : length key < 2 ^ 32) where
  -- What the parser has before it.
  abbrev pub At : Parser → List ℕ → Type 0
  At p xs = drop p.pos key ≡ xs

  pub get_next-moves :
      (step : ℕ) (p : Parser)
      → 1 ≤ step
      → p.pos + step < length key
      → get_next key step p ≡ (true, record { pos = p.pos + step; cur_byte = get_or key p.pos 0 })
  unfolding get_next
  get_next-moves step p s h =
      let a : leb (length key) p.pos ≡ false = ground arith in
      let b : (p.pos == sub32 (length key) step) ≡ false = ground arith in
      let c : add32 p.pos step ≡ p.pos + step = omega arith in
      let d : leb (length key) (p.pos + step) ≡ false = ground arith in rw (a, b, c, d) refl

  pub get_next-ends :
      (step : ℕ) (p : Parser)
      → 1 ≤ step
      → p.pos + step ≡ length key
      → get_next key step p ≡ (true, record { pos = p.pos; cur_byte = get_or key p.pos 0 })
  unfolding get_next
  get_next-ends step p s h =
      let a : leb (length key) p.pos ≡ false = ground arith in
      let b : (p.pos == sub32 (length key) step) ≡ true = ground arith in rw (a, b) refl

  pub get_next-At :
      (p : Parser) (x : ℕ) (rest : List ℕ)
      → At p (x ∷ rest)
      → 1 ≤ length rest
      → ((get_next key 1 p).0 ≡ true)
        × (((get_next key 1 p).1.cur_byte ≡ x) × At (get_next key 1 p).1 rest)
  get_next-At p x rest h l =
      let e =
        get_next-moves 1 p (omega arith) (omega (arith, drop-cons_length p.pos x key rest h, l)) in
      (
        ap (λ r. r.0) e,
        (
          ap (λ r. r.1.cur_byte) e ∙ get_or-drop p.pos x 0 key rest h,
          ap (λ r. drop r.1.pos key) e ∙ drop-over (x ∷ []) p.pos key rest h,
        ),
      )

  pub expect-At :
      (p : Parser) (b : ℕ) (rest : List ℕ)
      → At p (b ∷ rest)
      → 1 ≤ length rest
      → ((expect key b p).0 ≡ true) × At (expect key b p).1 rest
  unfolding expect
  expect-At p b rest h l =
      let (f, (c, a)) = get_next-At p b rest h l in
      let e : (b == b) ≡ true = ground arith in (rw (f, c, e) refl, a)

  pub read_len_bytes-At :
      (bs : List ℕ) (acc num : ℕ) (p : Parser) (rest : List ℕ)
      → big_endian acc bs < 2 ^ 32
      → At p (bs ++ rest)
      → 1 ≤ length rest
      → ((read_len_bytes key (length bs) acc num p).0 ≡ big_endian acc bs)
        × (((read_len_bytes key (length bs) acc num p).1.0 ≡ num + length bs)
            × At (read_len_bytes key (length bs) acc num p).1.1 rest)
  unfolding read_len_bytes
  read_len_bytes-At [] acc num p rest u h l = (refl, (omega arith, h))
  read_len_bytes-At (b ∷ bs) acc num p rest u h l =
      let (f, (c, a)) = get_next-At p b (bs ++ rest) h (omega (arith, l, length-append bs rest)) in
      let m : add32 (acc * 2 ^ 8 % 2 ^ 32) b ≡ acc * 256 + b =
        omega (arith, big_endian-le (acc * 256 + b) bs, u) in
      let (x, (y, z)) =
        read_len_bytes-At bs (acc * 256 + b) (suc num) (get_next key 1 p).1 rest u a l in
      rw (f, c, m) (x, (y ∙ omega arith, z))
