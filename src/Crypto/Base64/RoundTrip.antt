-- ===== src/Crypto/Base64/RoundTrip.antt =====
-- `base64_decode` of libraries/eosiolib/core/eosio/crypto_utils.hpp against the encoder of RFC 4648.
use taurus_cdt.Prelude.{
  ℕ, ◌+◌, ◌-◌, ◌*◌, ◌/◌, ◌%◌, ◌<◌, ◌≡◌, refl, sym, ap, ◌∙◌, List, [], ◌∷◌, ◌++◌, Bool, true, false,
  not, ◌&&◌, ltb, ◌==◌, ==_iff, all_below, all_below-at, if◌then◌else◌, All, arith, &&_iff, length,
}
use mathlib.Core.List.{append-nil, append_assoc}
use taurus_cdt.Crypto.Base64.{
  is_base64_char, look_up, char_array_3, decode_quad, finish, decode_loop, base64_decode,
}

-- The character of a value below 64.
unfoldable pub base64_char : ℕ → ℕ
base64_char v =
    if ltb v 26
    then v + 65
    else (if ltb v 52 then v + 71 else (if ltb v 62 then v - 4 else (if v == 62 then 43 else 47)))

-- The padding is `=`, the character 61.
unfoldable pub base64_encode : List ℕ → List ℕ
unfolding base64_char
base64_encode [] = []
base64_encode (a ∷ []) = base64_char (a / 4) ∷ base64_char (a % 4 * 16) ∷ 61 ∷ 61 ∷ []
base64_encode (a ∷ b ∷ []) =
    base64_char (a / 4) ∷ base64_char (a % 4 * 16 + b / 16) ∷ base64_char (b % 16 * 4) ∷ 61 ∷ []
base64_encode (a ∷ b ∷ c ∷ rest) =
    base64_char (a / 4)
    ∷ base64_char (a % 4 * 16 + b / 16)
    ∷ base64_char (b % 16 * 4 + c / 64)
    ∷ base64_char (c % 64)
    ∷ base64_encode rest

-- What the decoder needs of the character of one value.
unfoldable well_coded : ℕ → Bool
unfolding base64_char is_base64_char look_up
well_coded v =
    look_up (base64_char v) == v && (is_base64_char (base64_char v) && not (base64_char v == 61))

all_well_coded : all_below 64 well_coded ≡ true
unfolding well_coded
all_well_coded = refl

char-value : (v : ℕ) → v < 64 → look_up (base64_char v) ≡ v
unfolding well_coded
char-value v h =
    (==_iff (look_up (base64_char v)) v).0
      ((&&_iff _ _).0 (all_below-at 64 v well_coded all_well_coded h)).0

not-true : (b : Bool) → not b ≡ true → b ≡ false
not-true true h = cc
not-true false h = refl

char-valid :
    (v : ℕ) → v < 64 → (is_base64_char (base64_char v) ≡ true) × ((base64_char v == 61) ≡ false)
unfolding well_coded
char-valid v h =
    let w = (&&_iff _ _).0 ((&&_iff _ _).0 (all_below-at 64 v well_coded all_well_coded h)).1 in
    (w.0, not-true (base64_char v == 61) w.1)

-- One round of the loop, at the character of a value.
decode_loop-char :
    (v : ℕ) (xs pend ret : List ℕ)
    → v < 64
    → decode_loop (base64_char v ∷ xs) pend ret ≡ (
        let full = length (pend ++ base64_char v ∷ []) == 4 in
        decode_loop xs
          (if full then [] else (pend ++ base64_char v ∷ []))
          (if full then (ret ++ decode_quad (pend ++ base64_char v ∷ [])) else ret))
unfolding decode_loop
decode_loop-char v xs pend ret h = let (p, q) = char-valid v h in rw (q, p) refl

decode_quad-chars :
    (a b c d : ℕ)
    → a < 64
    → b < 64
    → c < 64
    → d < 64
    → decode_quad (base64_char a ∷ base64_char b ∷ base64_char c ∷ base64_char d ∷ [])
      ≡ char_array_3 a b c d
unfolding decode_quad
decode_quad-chars a b c d ha hb hc hd =
    rw (char-value a ha, char-value b hb, char-value c hc, char-value d hd) refl

decode_loop-quad :
    (a b c d : ℕ) (xs ret : List ℕ)
    → a < 64
    → b < 64
    → c < 64
    → d < 64
    → decode_loop (base64_char a ∷ base64_char b ∷ base64_char c ∷ base64_char d ∷ xs) [] ret
      ≡ decode_loop xs [] (ret ++ char_array_3 a b c d)
decode_loop-quad a b c d xs ret ha hb hc hd =
    let A = base64_char a in
    let B = base64_char b in
    let C = base64_char c in
    let D = base64_char d in
    decode_loop-char a (B ∷ C ∷ D ∷ xs) [] ret ha
    ∙ decode_loop-char b (C ∷ D ∷ xs) (A ∷ []) ret hb
    ∙ decode_loop-char c (D ∷ xs) (A ∷ B ∷ []) ret hc
    ∙ decode_loop-char d xs (A ∷ B ∷ C ∷ []) ret hd
    ∙ ap (λ q. decode_loop xs [] (ret ++ q)) (decode_quad-chars a b c d ha hb hc hd)

first_byte : (a b : ℕ) → a < 256 → b < 16 → (a / 4 * 4 + (a % 4 * 16 + b) / 16 % 4) % 256 ≡ a
first_byte a b ha hb = omega arith

second_byte :
    (a b c : ℕ)
    → b < 256
    → c < 4
    → ((a % 4 * 16 + b / 16) % 16 * 16 + (b % 16 * 4 + c) / 4 % 16) % 256 ≡ b
second_byte a b c hb hc = omega arith

third_byte : (b c : ℕ) → c < 256 → ((b % 16 * 4 + c / 64) % 4 * 64 + c % 64) % 256 ≡ c
third_byte b c hc = omega arith

char_array_3-bytes :
    (a b c : ℕ)
    → a < 256
    → b < 256
    → c < 256
    → char_array_3 (a / 4) (a % 4 * 16 + b / 16) (b % 16 * 4 + c / 64) (c % 64) ≡ a ∷ b ∷ c ∷ []
unfolding char_array_3
char_array_3-bytes a b c ha hb hc =
    rw
      (
        first_byte a (b / 16) ha (omega arith),
        second_byte a b (c / 64) hb (omega arith),
        third_byte b c hc,
      )
      refl

decode_loop-nil : (ret : List ℕ) → decode_loop [] [] ret ≡ ret
unfolding decode_loop finish
decode_loop-nil ret = refl

decode_loop-pad : (xs pend ret : List ℕ) → decode_loop (61 ∷ xs) pend ret ≡ finish pend ret
unfolding decode_loop
decode_loop-pad xs pend ret = refl

finish-two :
    (a : ℕ) (ret : List ℕ)
    → a < 256
    → finish (base64_char (a / 4) ∷ base64_char (a % 4 * 16) ∷ []) ret ≡ ret ++ a ∷ []
unfolding finish decode_quad char_array_3
finish-two a ret h =
    let e : (a / 4 * 4 + a % 4 * 16 / 16 % 4) % 256 ≡ a = omega arith in
    rw (char-value (a / 4) (omega arith), char-value (a % 4 * 16) (omega arith), e) refl

finish-three :
    (a b : ℕ) (ret : List ℕ)
    → a < 256
    → b < 256
    → finish
        (base64_char (a / 4) ∷ base64_char (a % 4 * 16 + b / 16) ∷ base64_char (b % 16 * 4) ∷ [])
        ret
      ≡ ret ++ a ∷ b ∷ []
unfolding finish decode_quad char_array_3
finish-three a b ret ha hb =
    let f : ((a % 4 * 16 + b / 16) % 16 * 16 + b % 16 * 4 / 4 % 16) % 256 ≡ b = omega arith in
    rw
      (
        char-value (a / 4) (omega arith),
        char-value (a % 4 * 16 + b / 16) (omega arith),
        char-value (b % 16 * 4) (omega arith),
        first_byte a (b / 16) ha (omega arith),
        f,
      )
      refl

decode_loop-encode :
    (bs ret : List ℕ) → All (λ b. b < 256) bs → decode_loop (base64_encode bs) [] ret ≡ ret ++ bs
unfolding base64_encode
decode_loop-encode [] ret h = decode_loop-nil ret ∙ sym (append-nil ret)
decode_loop-encode (a ∷ []) ret (ha, h) =
    let B = base64_char (a % 4 * 16) in
    decode_loop-char (a / 4) (B ∷ 61 ∷ 61 ∷ []) [] ret (omega arith)
    ∙ decode_loop-char (a % 4 * 16) (61 ∷ 61 ∷ []) (base64_char (a / 4) ∷ []) ret (omega arith)
    ∙ decode_loop-pad (61 ∷ []) (base64_char (a / 4) ∷ B ∷ []) ret
    ∙ finish-two a ret ha
decode_loop-encode (a ∷ b ∷ []) ret (ha, (hb, h)) =
    let A = base64_char (a / 4) in
    let B = base64_char (a % 4 * 16 + b / 16) in
    let C = base64_char (b % 16 * 4) in
    decode_loop-char (a / 4) (B ∷ C ∷ 61 ∷ []) [] ret (omega arith)
    ∙ decode_loop-char (a % 4 * 16 + b / 16) (C ∷ 61 ∷ []) (A ∷ []) ret (omega arith)
    ∙ decode_loop-char (b % 16 * 4) (61 ∷ []) (A ∷ B ∷ []) ret (omega arith)
    ∙ decode_loop-pad [] (A ∷ B ∷ C ∷ []) ret
    ∙ finish-three a b ret ha hb
decode_loop-encode (a ∷ b ∷ c ∷ rest) ret (ha, (hb, (hc, h))) =
    decode_loop-quad (a / 4) (a % 4 * 16 + b / 16) (b % 16 * 4 + c / 64) (c % 64)
      (base64_encode rest) ret (omega arith) (omega arith) (omega arith) (omega arith)
    ∙ ap (λ q. decode_loop (base64_encode rest) [] (ret ++ q)) (char_array_3-bytes a b c ha hb hc)
    ∙ decode_loop-encode rest (ret ++ a ∷ b ∷ c ∷ []) h
    ∙ append_assoc ret (a ∷ b ∷ c ∷ []) rest

-- Decoding what the standard encoder writes for a list of bytes, of any length, gives the bytes back.
pub base64_decode-encode :
    (bs : List ℕ) → All (λ b. b < 256) bs → base64_decode (base64_encode bs) ≡ bs
unfolding base64_decode
base64_decode-encode bs h = decode_loop-encode bs [] h
