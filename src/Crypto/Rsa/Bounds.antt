-- ===== src/Crypto/Rsa/Bounds.antt =====
-- `rsa_key_parser` of libraries/eosiolib/core/eosio/crypto_utils.hpp: no read leaves the key.
use taurus_cdt.Prelude.{
  ℕ, zero, suc, ◌-◌, ◌<◌, List, Bool, true, false, not, ◌&&◌, ◌==◌, leb, ltb, leb-false→lt,
  if◌then◌else◌, length, add32, sub32, Bool-cases, inl, inr,
}
use taurus_cdt.Crypto.Rsa.{
  Parser, get_next, expect, read_len_bytes, read_len, read_seq_len, read_chars, read_oid, get_null,
  read_bit_str, read_int,
}

module _ (key : List ℕ) where
  -- The parser stands at a byte of the key.
  abbrev pub InKey : Parser → Type 0
  InKey p = p.pos < length key

  if-InKey {ℓ} :
      {A : Type ℓ} (at : A → Parser) (b : Bool) (x y : A)
      → InKey (at x)
      → InKey (at y)
      → InKey (at (if b then x else y))
  if-InKey at true x y h k = h
  if-InKey at false x y h k = k

  get_next-InKey : (step : ℕ) (p : Parser) → InKey p → InKey (get_next key step p).1
  unfolding get_next
  get_next-InKey step p h = elim (Bool-cases (leb (length key) p.pos)) [
    | inl e ↦ rw e h
    | inr e ↦ elim (Bool-cases (p.pos == sub32 (length key) step)) [
      | inl f ↦ rw (e, f) h
      | inr f ↦ elim (Bool-cases (leb (length key) (add32 p.pos step))) [
        | inl g ↦ rw (e, f, g) h
        | inr g ↦ rw (e, f, g) (leb-false→lt (length key) (add32 p.pos step) g)
      ]
    ]
  ]

  expect-InKey : (b : ℕ) (p : Parser) → InKey p → InKey (expect key b p).1
  unfolding expect
  expect-InKey b p h = get_next-InKey 1 p h

  read_len_bytes-InKey :
      (n len num : ℕ) (p : Parser) → InKey p → InKey (read_len_bytes key n len num p).1.1
  unfolding read_len_bytes
  read_len_bytes-InKey zero len num p h = h
  read_len_bytes-InKey (suc n) len num p h =
      let k = get_next-InKey 1 p h in
      if-InKey {A = ℕ × (ℕ × Parser)} (λ r. r.1.1) (get_next key 1 p).0 _ _
        (read_len_bytes-InKey n _ (suc num) (get_next key 1 p).1 k) k

  read_len-InKey : (p : Parser) → InKey p → InKey (read_len key p).1.1
  unfolding read_len
  read_len-InKey p h =
      let k = get_next-InKey 1 p h in
      let q = (get_next key 1 p).1 in
      if-InKey {A = ℕ × (ℕ × Parser)} (λ r. r.1.1) (not (get_next key 1 p).0) _ _ k
        (if-InKey {A = ℕ × (ℕ × Parser)} (λ r. r.1.1) (ltb q.cur_byte 128) _ _ k
          (if-InKey {A = ℕ × (ℕ × Parser)} (λ r. r.1.1) (ltb 128 q.cur_byte && leb q.cur_byte 132) _
            _ (read_len_bytes-InKey (q.cur_byte - 128) 0 0 q k) k))

  read_seq_len-InKey : (p : Parser) → InKey p → InKey (read_seq_len key p).1.1
  unfolding read_seq_len
  read_seq_len-InKey p h =
      let k = expect-InKey 48 p h in
      if-InKey {A = ℕ × (ℕ × Parser)} (λ r. r.1.1) (expect key 48 p).0 _ _
        (read_len-InKey (expect key 48 p).1 k) k

  read_chars-InKey : (len : ℕ) (p : Parser) → InKey p → InKey (read_chars key len p).1
  unfolding read_chars
  read_chars-InKey len p h = get_next-InKey len p h

  read_oid-InKey : (p : Parser) → InKey p → InKey (read_oid key p).1
  unfolding read_oid
  read_oid-InKey p h =
      let k = expect-InKey 6 p h in
      let l = read_len-InKey (expect key 6 p).1 k in
      if-InKey {A = List ℕ × Parser} (λ r. r.1) (not (expect key 6 p).0) _ _ k
        (if-InKey {A = List ℕ × Parser} (λ r. r.1) ((read_len key (expect key 6 p).1).0 == 0) _ _ l
          (read_chars-InKey (read_len key (expect key 6 p).1).0
            (read_len key (expect key 6 p).1).1.1 l))

  get_null-InKey : (p : Parser) → InKey p → InKey (get_null key p).1
  unfolding get_null
  get_null-InKey p h =
      let k = expect-InKey 5 p h in
      if-InKey {A = Bool × Parser} (λ r. r.1) (expect key 5 p).0 _ _
        (expect-InKey 0 (expect key 5 p).1 k) k

  read_bit_str-InKey : (p : Parser) → InKey p → InKey (read_bit_str key p).1
  unfolding read_bit_str
  read_bit_str-InKey p h =
      let k = expect-InKey 3 p h in
      let l = read_len-InKey (expect key 3 p).1 k in
      let s = get_next-InKey 1 (read_len key (expect key 3 p).1).1.1 l in
      if-InKey {A = ℕ × Parser} (λ r. r.1) (not (expect key 3 p).0) _ _ k
        (if-InKey {A = ℕ × Parser} (λ r. r.1)
          (get_next key 1 (read_len key (expect key 3 p).1).1.1).0 _ _ s s)

  read_int-InKey : (p : Parser) → InKey p → InKey (read_int key p).1
  unfolding read_int
  read_int-InKey p h =
      let k = expect-InKey 2 p h in
      let l = read_len-InKey (expect key 2 p).1 k in
      if-InKey {A = List ℕ × Parser} (λ r. r.1) (not (expect key 2 p).0) _ _ k
        (if-InKey {A = List ℕ × Parser} (λ r. r.1) ((read_len key (expect key 2 p).1).0 == 0) _ _ l
          (read_chars-InKey (read_len key (expect key 2 p).1).0
            (read_len key (expect key 2 p).1).1.1 l))

  -- A parser that stands at a byte of the key still does after each of the reads, whatever the key
  -- holds and whether the read succeeds or not.
  pub reads-InKey :
      (p : Parser)
      → InKey p
      → InKey (read_len key p).1.1
        × (InKey (read_seq_len key p).1.1
            × (InKey (read_oid key p).1
                × (InKey (get_null key p).1
                    × (InKey (read_bit_str key p).1 × InKey (read_int key p).1))))
  reads-InKey p h = (
    read_len-InKey p h,
    (
      read_seq_len-InKey p h,
      (read_oid-InKey p h, (get_null-InKey p h, (read_bit_str-InKey p h, read_int-InKey p h))),
    ),
  )
