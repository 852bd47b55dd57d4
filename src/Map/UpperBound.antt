-- ===== src/Map/UpperBound.antt =====
-- `increment_bytes` and `upper_bound` of libraries/eosiolib/contracts/eosio/map.hpp.
use taurus_cdt.Prelude.{
  ℕ, ◌+◌, ◌%◌, ◌<◌, ◌≤◌, ◌≡◌, ◌≢◌, ◌↔◌, refl, sym, ap, ◌∙◌, subst, [], ◌∷◌, ◌++◌, Option, none,
  some, Option-cases, inl, inr, true, false, ltb, leb, lt→ltb, le→ltb-false, le→leb, lt→leb-false,
  ok, length, arith,
}
use mathlib.Core.List.{reverse, reverse-append, reverse-cons, reverse-reverse}
use taurus_cdt.Kv.Keys
use taurus_cdt.Kv.Keys.{Bytes}
use taurus_cdt.Kv.Host.{KvHost}
use taurus_cdt.Kv.Cursors.{Status, KvCursors, First, Lt, CursorLaws}
use taurus_cdt.Kv.ListHost.{bytes_leb}
use taurus_cdt.Map.ByteOrder.{cons_leb, cons_same, cons_greater, next_iff, one_leb, two_leb}
use taurus_cdt.Map.{MapType, self_prefix, full_key}
use taurus_cdt.Map.Iterator.{
  Iterator, increment_back, increment_bytes, create, seek_lower_bound, upper_bound,
}
use taurus_cdt.Map.Position.{Placed, lower_bound-Placed}

-- A last byte below 128 is incremented, and no other is read.
increment_last :
    (xs : Bytes) (b : ℕ) → b < 128 → increment_bytes (xs ++ b ∷ []) ≡ ok (xs ++ (b + 1) ∷ [])
unfolding increment_bytes increment_back
increment_last xs b h =
    let e : (b + 1) % 256 ≡ b + 1 = omega (arith, h) in
    let f : leb (b + 1) 255 ≡ true = le→leb (b + 1) 255 (omega (arith, h)) in
    let g : ltb b 128 ≡ true = lt→ltb b 128 h in
    rw (reverse-append xs (b ∷ []), g, f, e)
      (ap ok
        (reverse-cons (b + 1) (reverse xs) ∙ ap (λ ys. ys ++ (b + 1) ∷ []) (reverse-reverse xs)))

module _ {K V : Type 0} (t : MapType K V) {host : KvHost} (cursors : KvCursors host)
    (laws : CursorLaws cursors) (s : host.Store) where
  open host use {kv_get}
  open cursors use {stands, Le}

  -- A range may be given by any test that the keys in use of the map pass alike.
  First-range :
      (P Q : Bytes → Type 0) (st : Status) (o : Option Bytes)
      → ((r : Bytes)
          → kv_get s (Keys.full_key (self_prefix t) r) ≢ none
          → P (Keys.full_key (self_prefix t) r) ↔ Q (Keys.full_key (self_prefix t) r))
      → First cursors s (self_prefix t) Le P st o
      → First cursors s (self_prefix t) Le Q st o
  First-range P Q st none h f = (
    f.0,
    λ r q. elim (Option-cases (kv_get s (Keys.full_key (self_prefix t) r))) [
      | inl n ↦ n
      | inr (b, e) ↦
          (let u : kv_get s (Keys.full_key (self_prefix t) r) ≢ none =
              λ m. let z : none ≡ some b = sym m ∙ e in cc in
            f.1 r ((h r u).1 q))
    ],
  )
  First-range P Q st (some k) h (e, u, p, (r, w), least) =
      let g : P k ↔ Q k = subst (λ j. kv_get s j ≢ none → P j ↔ Q j) (sym w) (h r) u in
      (e, u, g.0 p, (r, w), λ r' q n. least r' ((h r' n).1 q) n)

  -- `upper_bound( k )` is the first key in use after that of `k`, or the end, when the last byte of the key is below 128,
  -- the keys in use under the map's prefix are as long as it, and the host orders keys byte by byte.
  pub upper_bound-Placed :
      (k : K) (xs : Bytes) (b : ℕ)
      → full_key t k ≡ xs ++ b ∷ []
      → b < 128
      → ((j l : Bytes) → Le j l ↔ (bytes_leb j l ≡ true))
      → ((r : Bytes)
          → kv_get s (Keys.full_key (self_prefix t) r) ≢ none
          → length (Keys.full_key (self_prefix t) r) ≡ length (full_key t k))
      → (it : Iterator t host cursors) × (upper_bound t host cursors s k ≡ ok it)
        × Placed t cursors laws s Le (λ j. Lt cursors (full_key t k) j) it
  unfolding upper_bound
  upper_bound-Placed k xs b e h lex len =
      let p = lower_bound-Placed t cursors laws s (xs ++ (b + 1) ∷ []) in
      let after : (r : Bytes)
          → kv_get s (Keys.full_key (self_prefix t) r) ≢ none
          → Le (xs ++ (b + 1) ∷ []) (Keys.full_key (self_prefix t) r)
            ↔ Lt cursors (full_key t k) (Keys.full_key (self_prefix t) r) =
        λ r u.
          let j = Keys.full_key (self_prefix t) r in
          let n = next_iff xs b j (len r u ∙ ap length e) in
          rw e (
            λ l.
                let (a, d) = n.0 ((lex (xs ++ (b + 1) ∷ []) j).0 l) in
                ((lex (xs ++ b ∷ []) j).1 a, d),
            λ (a, d). (lex (xs ++ (b + 1) ∷ []) j).1 (n.1 ((lex (xs ++ b ∷ []) j).0 a, d)),
          ) in
      (
        seek_lower_bound t host cursors s (create t host cursors) (xs ++ (b + 1) ∷ []),
        rw (e, increment_last xs b h) refl,
        record {
          of_map = p.of_map;
          first =
              First-range (λ j. Le (xs ++ (b + 1) ∷ []) j) (λ j. Lt cursors (full_key t k) j) _ _
                after p.first;
        },
      )

increment_wraps : (xs : Bytes) → increment_bytes (xs ++ 255 ∷ []) ≡ ok (xs ++ 0 ∷ [])
unfolding increment_bytes increment_back
increment_wraps xs =
    rw (reverse-append xs (255 ∷ []))
      (ap ok (reverse-cons 0 (reverse xs) ∙ ap (λ ys. ys ++ 0 ∷ []) (reverse-reverse xs)))

carry_value : (b : ℕ) → 128 ≤ b → b < 255 → (b + 65280 + 1) % 65536 ≡ b + 65281
carry_value b h k = omega (arith, h, k)

increment_carries :
    (xs : Bytes) (x b : ℕ)
    → x < 128
    → 128 ≤ b
    → b < 255
    → increment_bytes ((xs ++ x ∷ []) ++ b ∷ []) ≡ ok ((xs ++ (x + 1) ∷ []) ++ (b + 1) ∷ [])
unfolding increment_bytes increment_back
increment_carries xs x b h k m =
    let g : ltb b 128 ≡ false = le→ltb-false b 128 k in
    let f : leb (b + 65281) 255 ≡ false = lt→leb-false (b + 65281) 255 (omega arith) in
    let d : (b + 65281) % 256 ≡ b + 1 = omega (arith, k, m) in
    let g' : ltb x 128 ≡ true = lt→ltb x 128 h in
    let f' : leb (x + 1) 255 ≡ true = le→leb (x + 1) 255 (omega (arith, h)) in
    let d' : (x + 1) % 256 ≡ x + 1 = omega (arith, h) in
    let back : reverse ((b + 1) ∷ (x + 1) ∷ reverse xs) ≡ (xs ++ (x + 1) ∷ []) ++ (b + 1) ∷ [] =
      reverse-cons (b + 1) ((x + 1) ∷ reverse xs)
      ∙ ap (λ ys. ys ++ (b + 1) ∷ [])
          (reverse-cons (x + 1) (reverse xs)
            ∙ ap (λ ys. ys ++ (x + 1) ∷ []) (reverse-reverse xs)) in
    rw
      (
        reverse-append (xs ++ x ∷ []) (b ∷ []),
        reverse-append xs (x ∷ []),
        g,
        carry_value b k m,
        f,
        d,
        g',
        f',
        d',
      )
      (ap ok back)

-- A last byte of 255 becomes 0 with no carry, so that the bound stands before the key. Where the byte before is below
-- 128, a last byte from 128 to 254 is incremented and so is the byte before, so that the bound stands behind the keys
-- that differ from the key in a greater last byte only, which follow the key.
pub increment_bytes-high :
    (xs : Bytes) (x b c : ℕ)
    → x < 128
    → 128 ≤ b
    → b < 255
    → b < c
    → (increment_bytes (xs ++ 255 ∷ []) ≡ ok (xs ++ 0 ∷ []))
      × (bytes_leb (xs ++ 0 ∷ []) (xs ++ 255 ∷ []) ≡ true)
      × (bytes_leb (xs ++ 255 ∷ []) (xs ++ 0 ∷ []) ≡ false)
      × (increment_bytes ((xs ++ x ∷ []) ++ b ∷ []) ≡ ok ((xs ++ (x + 1) ∷ []) ++ (b + 1) ∷ []))
      × (bytes_leb ((xs ++ x ∷ []) ++ b ∷ []) ((xs ++ x ∷ []) ++ c ∷ []) ≡ true)
      × (bytes_leb ((xs ++ (x + 1) ∷ []) ++ (b + 1) ∷ []) ((xs ++ x ∷ []) ++ c ∷ []) ≡ false)
increment_bytes-high xs x b c h k m n = (
  increment_wraps xs,
  one_leb xs 0 255,
  one_leb xs 255 0,
  increment_carries xs x b h k m,
  two_leb xs x b x c ∙ (cons_same x (b ∷ []) (c ∷ []) ∙ cons_leb b c [] [] n),
  two_leb xs (x + 1) (b + 1) x c ∙ cons_greater (x + 1) x ((b + 1) ∷ []) (c ∷ []) (omega arith),
)
