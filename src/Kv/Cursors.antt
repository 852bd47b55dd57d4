-- ===== src/Kv/Cursors.antt =====
-- The iterators of the host's key-value database, as contracts/eosio/kv_base.hpp declares them. A cursor is
-- the host's side of an iterator: the keys under its prefix, and the one where it stands.
use taurus_cdt.Prelude.{◌≡◌, ◌≢◌, ◌↔◌, ◌⊎◌, Option, none, some}
use taurus_cdt.Kv.Keys.{Bytes, full_key}
use taurus_cdt.Kv.Host.{KvHost}

-- `iterator_base::status`
pub data Status : Type 0 where
  iterator_ok iterator_erased iterator_end : Status

-- The sign of a comparison.
pub data Sign : Type 0 where
  negative equal positive : Sign

pub record KvCursors (host : KvHost) : Type 1 where
  pub Cursor : Type 0
  pub kv_it_create : Bytes → Cursor
  pub kv_it_lower_bound : host.Store → Cursor → Bytes → Status × Cursor
  pub kv_it_next : host.Store → Cursor → Status × Cursor
  pub kv_it_prev : host.Store → Cursor → Status × Cursor
  pub kv_it_move_to_end : host.Store → Cursor → Status × Cursor
  pub kv_it_compare : Cursor → Cursor → Sign
  pub kv_it_key_compare : Cursor → Bytes → Sign
  pub kv_it_value : host.Store → Cursor → Status × Bytes
  pub kv_it_key : host.Store → Cursor → Status × Bytes
  -- Where the cursor stands, and the order of keys.
  pub prefix_of : Cursor → Bytes
  pub stands : Cursor → Option Bytes
  pub Le : Bytes → Bytes → Type 0

abbrev pub Under : Bytes → Bytes → Type 0
Under p k = (r : Bytes) × (k ≡ full_key p r)

module _ {host : KvHost} (cursors : KvCursors host) where
  open host use {Store, kv_get}
  open cursors use {Cursor, prefix_of, stands, Le}

  -- The cursor came to the first key, in an order, under the prefix of those in a range, or to the end.
  abbrev pub First :
      Store → Bytes → (Bytes → Bytes → Type 0) → (Bytes → Type 0) → Status → Option Bytes → Type 0
  First s p order In st none =
      (st ≡ iterator_end) × ((r : Bytes) → In (full_key p r) → kv_get s (full_key p r) ≡ none)
  First s p order In st (some k) =
      (st ≡ iterator_ok)
      × (kv_get s k ≢ none)
      × In k
      × Under p k
      × ((r : Bytes) → In (full_key p r) → kv_get s (full_key p r) ≢ none → order k (full_key p r))

  -- The order of keys from the last to the first.
  abbrev pub Back : Bytes → Bytes → Type 0
  Back j k = Le k j

  abbrev pub Lt : Bytes → Bytes → Type 0
  Lt j k = Le j k × (j ≢ k)

  pub record CursorLaws : Type 0 where
    pub le_refl : (k : Bytes) → Le k k
    pub le_antisym : (j k : Bytes) → Le j k → Le k j → j ≡ k
    pub le_trans : (i j k : Bytes) → Le i j → Le j k → Le i k
    pub le_total : (j k : Bytes) → Le j k ⊎ Le k j
    pub prefix-create : (p : Bytes) → prefix_of (cursors.kv_it_create p) ≡ p
    pub prefix-lower_bound :
        (s : Store) (c : Cursor) (k : Bytes)
        → prefix_of (cursors.kv_it_lower_bound s c k).1 ≡ prefix_of c
    pub prefix-next : (s : Store) (c : Cursor) → prefix_of (cursors.kv_it_next s c).1 ≡ prefix_of c
    pub prefix-prev : (s : Store) (c : Cursor) → prefix_of (cursors.kv_it_prev s c).1 ≡ prefix_of c
    pub prefix-move_to_end :
        (s : Store) (c : Cursor) → prefix_of (cursors.kv_it_move_to_end s c).1 ≡ prefix_of c
    pub lower :
        (s : Store) (c : Cursor) (k : Bytes)
        → (let r = cursors.kv_it_lower_bound s c k in
            First s (prefix_of c) Le (λ j. Le k j) r.0 (stands r.1))
    pub next :
        (s : Store) (c : Cursor) (k : Bytes)
        → stands c ≡ some k
        → kv_get s k ≢ none
        → (let r = cursors.kv_it_next s c in
            First s (prefix_of c) Le (λ j. Lt k j) r.0 (stands r.1))
    pub prev :
        (s : Store) (c : Cursor) (k : Bytes)
        → stands c ≡ some k
        → kv_get s k ≢ none
        → (let r = cursors.kv_it_prev s c in
            First s (prefix_of c) Back (λ j. Lt j k) r.0 (stands r.1))
    pub prev_of_end :
        (s : Store) (c : Cursor)
        → stands c ≡ none
        → (let r = cursors.kv_it_prev s c in
            First s (prefix_of c) Back (λ j. Unit) r.0 (stands r.1))
    pub to_end :
        (s : Store) (c : Cursor)
        → (let r = cursors.kv_it_move_to_end s c in (r.0 ≡ iterator_end) × (stands r.1 ≡ none))
    pub compare_cursors :
        (a b : Cursor)
        → prefix_of a ≡ prefix_of b
        → (cursors.kv_it_compare a b ≡ equal) ↔ (stands a ≡ stands b)
    pub compare_less :
        (a b : Cursor) (j k : Bytes)
        → stands a ≡ some j
        → stands b ≡ some k
        → (cursors.kv_it_compare a b ≡ negative) ↔ Lt j k
    pub compare_equal :
        (c : Cursor) (k : Bytes) → (cursors.kv_it_key_compare c k ≡ equal) ↔ (stands c ≡ some k)
    pub reads :
        (s : Store) (c : Cursor) (k b : Bytes)
        → stands c ≡ some k
        → kv_get s k ≡ some b
        → cursors.kv_it_value s c ≡ (iterator_ok, b)
    pub reads_key :
        (s : Store) (c : Cursor) (k : Bytes)
        → stands c ≡ some k
        → kv_get s k ≢ none
        → cursors.kv_it_key s c ≡ (iterator_ok, k)
