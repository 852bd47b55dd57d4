-- ===== src/Crypto/Rsa.antt =====
-- `rsa_key_parser` and `parse_rsa_pubkey` of libraries/eosiolib/core/eosio/crypto_utils.hpp.
pub mod Bounds
pub mod Reads
mod Tests
use taurus_cdt.Prelude.{
  ℕ, zero, suc, ◌+◌, ◌-◌, ◌*◌, ◌%◌, ◌^◌, List, [], ◌∷◌, Bool, true, false, not, ◌&&◌, ◌||◌, ◌==◌,
  ltb, leb, if◌then◌else◌, Option, none, some, get_or, take, drop, length, list_eqb, add32, sub32,
}
use taurus_cdt.Crypto.Base64.{base64_decode}
use taurus_cdt.Crypto.Pem.{to_hex, strip_newline, strip_header_trailer}

pub record Parser : Type 0 where
  pub pos : ℕ
  pub cur_byte : ℕ

-- `ret.erase( 0, 1 )` where `ret[0]` is 0.
unfoldable pub without_zero : List ℕ → List ℕ
without_zero ret = if get_or ret 0 0 == 0 then drop 1 ret else ret

module _ (key : List ℕ) where
  -- `step` is a `uint32_t` that went through an `int`.
  unfoldable pub get_next : ℕ → Parser → Bool × Parser
  get_next step p =
      let cur = get_or key p.pos 0 in
      if leb (length key) p.pos
      then (false, p)
      else (if p.pos == sub32 (length key) step
          then (true, record { pos = p.pos; cur_byte = cur })
          else (if leb (length key) (add32 p.pos step)
              then (false, record { pos = p.pos; cur_byte = cur })
              else (true, record { pos = add32 p.pos step; cur_byte = cur })))

  -- `get_next() && cur_byte == b`
  unfoldable pub expect : ℕ → Parser → Bool × Parser
  unfolding get_next
  expect b p = let (found, q) = get_next 1 p in (found && q.cur_byte == b, q)

  -- The loop over the bytes of a long length.
  unfoldable pub read_len_bytes : ℕ → ℕ → ℕ → Parser → ℕ × (ℕ × Parser)
  unfolding get_next
  read_len_bytes zero len len_bytes_num p = (len, (len_bytes_num, p))
  read_len_bytes (suc n) len len_bytes_num p =
      let (found, q) = get_next 1 p in
      let rest = read_len_bytes n (add32 (len * 2 ^ 8 % 2 ^ 32) q.cur_byte) (suc len_bytes_num) q in
      if found then rest else (0, (0, q))

  -- `read_len( len, len_bytes_num )`
  unfoldable pub read_len : Parser → ℕ × (ℕ × Parser)
  unfolding read_len_bytes
  read_len p =
      let (found, q) = get_next 1 p in
      let len_byte = q.cur_byte in
      if not found
      then (0, (0, q))
      else (if ltb len_byte 128
          then (len_byte, (0, q))
          else (if ltb 128 len_byte && leb len_byte 132
              then read_len_bytes (len_byte - 128) 0 0 q
              else (0, (0, q))))

  -- Both forms of `read_seq_len`; its caller sets the lengths to 0.
  unfoldable pub read_seq_len : Parser → ℕ × (ℕ × Parser)
  unfolding expect read_len
  read_seq_len p =
      let (met, q) = expect 48 p in let r = read_len q in if met then r else (0, (0, q))

  -- `key.substr( pos, len )`, and the step over it.
  unfoldable pub read_chars : ℕ → Parser → List ℕ × Parser
  unfolding get_next
  read_chars len p =
      let ret = take len (drop p.pos key) in
      let (found, q) = get_next len p in (if found then ret else [], q)

  unfoldable pub read_oid : Parser → List ℕ × Parser
  unfolding expect read_len read_chars
  read_oid p =
      let (met, q) = expect 6 p in
      let (len, (n, r)) = read_len q in
      let chars = read_chars len r in
      if not met then ([], q) else (if len == 0 then ([], r) else chars)

  unfoldable pub get_null : Parser → Bool × Parser
  unfolding expect
  get_null p =
      let (met, q) = expect 5 p in let second = expect 0 q in if met then second else (false, q)

  unfoldable pub read_bit_str : Parser → ℕ × Parser
  unfolding expect read_len
  read_bit_str p =
      let (met, q) = expect 3 p in
      let (len, (n, r)) = read_len q in
      let (found, s) = get_next 1 r in
      if not met then (0, q) else (if found then (len, s) else (0, s))

  unfoldable pub read_int : Parser → List ℕ × Parser
  unfolding expect read_len read_chars without_zero
  read_int p =
      let (met, q) = expect 2 p in
      let (len, (n, r)) = read_len q in
      let (ret, s) = read_chars len r in
      if not met then ([], q) else (if len == 0 then ([], r) else (without_zero ret, s))

unfoldable pub rsa_oid : List ℕ
rsa_oid = 42 ∷ 134 ∷ 72 ∷ 134 ∷ 247 ∷ 13 ∷ 1 ∷ 1 ∷ 1 ∷ []

abbrev pub start : Parser
start = record { pos = 0; cur_byte = 0 }

-- What `parse_rsa_pubkey` returns, and what it leaves in `mod` and `exp`.
pub record Parsed : Type 0 where
  pub code_ok : Bool
  pub mod_hex : List ℕ
  pub exp_hex : List ℕ

-- The two integers, from a parser that stands before them.
unfoldable pub parse_numbers : List ℕ → Parser → Parsed → Parsed
unfolding read_int to_hex
parse_numbers key p before =
    let (mod_bytes, q) = read_int key p in
    let (exp_bytes, r) = read_int key q in
    if length mod_bytes == 0
    then before
    else (if length exp_bytes == 0
        then record { code_ok = false; mod_hex = to_hex mod_bytes; exp_hex = before.exp_hex }
        else record { code_ok = true; mod_hex = to_hex mod_bytes; exp_hex = to_hex exp_bytes })

-- What stands after the decoding.
unfoldable pub parse_key : List ℕ → Parsed → Parsed
unfolding read_seq_len read_oid get_null read_bit_str rsa_oid parse_numbers
parse_key key before =
    let (key_seq_len, (len_bytes_num, p0)) = read_seq_len key start in
    let (inner_len, (n, p1)) = read_seq_len key p0 in
    let (oid_chars, p2) = read_oid key p1 in
    let (null_met, p3) = get_null key p2 in
    let (bit_len, p4) = read_bit_str key p3 in
    let (seq_len, (m, p5)) = read_seq_len key p4 in
    if key_seq_len == 0
      || not (sub32 (sub32 (length key) 2) len_bytes_num == key_seq_len)
      || inner_len == 0
      || not (list_eqb oid_chars rsa_oid)
      || not null_met
      || bit_len == 0
      || seq_len == 0
    then before
    else parse_numbers key p5 before

unfoldable pub parse_stripped : List ℕ → Parsed → Parsed
unfolding parse_key
parse_stripped key_stripped before =
    let key = base64_decode key_stripped in
    if length key_stripped == 0 || ltb (length key) 2 then before else parse_key key before

-- `none` where C++ has no behaviour.
unfoldable pub parse_rsa_pubkey : List ℕ → List ℕ → List ℕ → Option Parsed
unfolding parse_stripped
parse_rsa_pubkey pubkey mod_hex exp_hex =
    let before : Parsed = record { code_ok = false; mod_hex = mod_hex; exp_hex = exp_hex } in
    let key_stripped = strip_newline pubkey in
    if length key_stripped == 0 then some before else elim (strip_header_trailer key_stripped) [
      | none ↦ none
      | some stripped ↦ some (parse_stripped stripped before)
    ]
