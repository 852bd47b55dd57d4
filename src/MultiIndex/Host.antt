-- ===== src/MultiIndex/Host.antt =====
-- What contracts/eosio/multi_index.hpp uses of the host's database, for one table and its secondary
-- indices: the calls db_*_i64, and db_idx*_* at the number of an index. A handle is a non-negative
-- iterator, and `none` a negative one or an abort of the call. Who pays for a row is left out.
use taurus_cdt.Prelude.{ℕ, ◌≡◌, ◌&&◌, ◌==◌, List, if◌then◌else◌, Option, none, some}

abbrev pub Bytes : Type 0
Bytes = List ℕ

pub record DbHost (Key : Type 0) : Type 1 where
  pub Store : Type 0
  pub current_receiver : ℕ
  -- The row of a primary key: its handle (`db_find_i64`) and its bytes.
  pub lookup : Store → ℕ → Option (ℕ × Bytes)
  -- `db_get_i64`
  pub db_get : Store → ℕ → Option Bytes
  pub db_store : Store → ℕ → Bytes → Option (ℕ × Store)
  pub db_update : Store → ℕ → Bytes → Option Store
  pub db_remove : Store → ℕ → Option Store
  -- The entry of a primary key in an index: its handle (`db_idx*_find_primary`) and the secondary key.
  pub sec : Store → ℕ → ℕ → Option (ℕ × Key)
  pub idx_store : Store → ℕ → ℕ → Key → Option (ℕ × Store)
  pub idx_update : Store → ℕ → ℕ → Key → Option Store
  pub idx_remove : Store → ℕ → ℕ → Option Store
  -- `db_lowerbound_i64`, `db_upperbound_i64`, `db_next_i64`, `db_previous_i64`, `db_end_i64`
  pub db_lowerbound : Store → ℕ → Option ℕ
  pub db_upperbound : Store → ℕ → Option ℕ
  pub db_next : Store → ℕ → Option ℕ
  pub db_previous : Store → ℕ → Option ℕ
  pub db_end : Store → Option ℕ
  -- The same of an index, with the primary key of the entry.
  pub idx_lowerbound : Store → ℕ → Key → Option (ℕ × ℕ)
  pub idx_upperbound : Store → ℕ → Key → Option (ℕ × ℕ)
  pub idx_next : Store → ℕ → ℕ → Option (ℕ × ℕ)
  pub idx_previous : Store → ℕ → ℕ → Option (ℕ × ℕ)
  pub idx_end : Store → ℕ → Option ℕ

abbrev pub handle_of {ℓ} : {A : Type ℓ} → Option (ℕ × A) → Option ℕ
handle_of none = none
handle_of (some (h, a)) = some h

module _ {Key : Type 0} (host : DbHost Key) where
  open host use {Store, lookup, sec}

  -- A row changes, and nothing else.
  abbrev pub RowSet : Store → ℕ → Option (ℕ × Bytes) → Store → Type 0
  RowSet s k r s' =
      ((j : ℕ) → lookup s' j ≡ (if j == k then r else lookup s j))
      × ((n j : ℕ) → sec s' n j ≡ sec s n j)

  -- An entry of an index changes, and nothing else.
  abbrev pub EntrySet : Store → ℕ → ℕ → Option (ℕ × Key) → Store → Type 0
  EntrySet s n k r s' =
      ((j : ℕ) → lookup s' j ≡ lookup s j)
      × ((m j : ℕ) → sec s' m j ≡ (if m == n && j == k then r else sec s m j))

  -- What the database documents of these calls.
  pub record HostLaws : Type 0 where
    pub get-lookup :
        (s : Store) (k h : ℕ) (b : Bytes) → lookup s k ≡ some (h, b) → host.db_get s h ≡ some b
    pub one_key :
        (s : Store) (j k h : ℕ) (b c : Bytes)
        → lookup s j ≡ some (h, b)
        → lookup s k ≡ some (h, c)
        → j ≡ k
    pub store_new :
        (s : Store) (k : ℕ) (b : Bytes)
        → lookup s k ≡ none
        → (h : ℕ) × (s' : Store) × (host.db_store s k b ≡ some (h, s'))
          × RowSet s k (some (h, b)) s'
    pub store_taken :
        (s : Store) (k : ℕ) (b : Bytes) (r : ℕ × Bytes)
        → lookup s k ≡ some r
        → host.db_store s k b ≡ none
    pub update_live :
        (s : Store) (k h : ℕ) (b c : Bytes)
        → lookup s k ≡ some (h, b)
        → (s' : Store) × (host.db_update s h c ≡ some s') × RowSet s k (some (h, c)) s'
    pub remove_live :
        (s : Store) (k h : ℕ) (b : Bytes)
        → lookup s k ≡ some (h, b)
        → (s' : Store) × (host.db_remove s h ≡ some s') × RowSet s k none s'
    pub idx_store_new :
        (s : Store) (n k : ℕ) (x : Key)
        → sec s n k ≡ none
        → (g : ℕ) × (s' : Store) × (host.idx_store s n k x ≡ some (g, s'))
          × EntrySet s n k (some (g, x)) s'
    pub idx_update_live :
        (s : Store) (n k g : ℕ) (x y : Key)
        → sec s n k ≡ some (g, x)
        → (s' : Store) × (host.idx_update s n g y ≡ some s') × EntrySet s n k (some (g, y)) s'
    pub idx_remove_live :
        (s : Store) (n k g : ℕ) (x : Key)
        → sec s n k ≡ some (g, x)
        → (s' : Store) × (host.idx_remove s n g ≡ some s') × EntrySet s n k none s'
