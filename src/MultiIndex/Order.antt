-- ===== src/MultiIndex/Order.antt =====
-- What the iterators of contracts/eosio/multi_index.hpp use of the host's database: the order of rows and of
-- the entries of an index.
use taurus_cdt.Prelude.{ℕ, ◌≡◌, ◌≢◌, ◌≤◌, ◌<◌, Bool, true, ◌↔◌, Option, none, some}
use taurus_cdt.MultiIndex.Host.{Bytes, DbHost}

module _ {Key : Type 0} (host : DbHost Key) where
  open host use {Store, lookup, sec}

  -- The row, by its handle, that is the first of those whose keys are in a range.
  abbrev pub Nearest : Store → (ℕ → Type 0) → (ℕ → ℕ → Type 0) → Option ℕ → Type 0
  Nearest s In Before none = (j : ℕ) → In j → lookup s j ≡ none
  Nearest s In Before (some h) =
      (k : ℕ) × (b : Bytes) × (lookup s k ≡ some (h, b))
      × In k
      × ((j : ℕ) → In j → lookup s j ≢ none → Before k j)

  pub record OrderLaws : Type 0 where
    pub lowerbound :
        (s : Store) (p : ℕ) → Nearest s (λ j. p ≤ j) (λ k j. k ≤ j) (host.db_lowerbound s p)
    pub upperbound :
        (s : Store) (p : ℕ) → Nearest s (λ j. p < j) (λ k j. k ≤ j) (host.db_upperbound s p)
    pub next :
        (s : Store) (k h : ℕ) (b : Bytes)
        → lookup s k ≡ some (h, b)
        → Nearest s (λ j. k < j) (λ k j. k ≤ j) (host.db_next s h)
    pub previous :
        (s : Store) (k h : ℕ) (b : Bytes)
        → lookup s k ≡ some (h, b)
        → Nearest s (λ j. j < k) (λ k j. j ≤ k) (host.db_previous s h)
    pub end_empty : (s : Store) → host.db_end s ≡ none → (j : ℕ) → lookup s j ≡ none
    pub end_previous :
        (s : Store) (e : ℕ)
        → host.db_end s ≡ some e
        → Nearest s (λ j. Unit {0}) (λ k j. j ≤ k) (host.db_previous s e)

-- The order of secondary keys in an index, and their `==`.
pub record KeyOrder (Key : Type 0) : Type 1 where
  pub Le : Key → Key → Type 0
  pub eqb : Key → Key → Bool
  pub lowest : Key

pub record KeyOrderLaws {Key : Type 0} (o : KeyOrder Key) : Type 0 where
  pub le_refl : (x : Key) → o.Le x x
  pub le_antisym : (x y : Key) → o.Le x y → o.Le y x → x ≡ y
  pub eqb_iff : (x y : Key) → (o.eqb x y ≡ true) ↔ (x ≡ y)

module _ {Key : Type 0} (host : DbHost Key) (o : KeyOrder Key) where
  open host use {Store, sec}

  -- The entry, by its handle and primary key, that is the first of those whose keys are in a range.
  abbrev pub NearestEntry : Store → ℕ → (Key → Type 0) → Option (ℕ × ℕ) → Type 0
  NearestEntry s n In none = (j g : ℕ) (x : Key) → sec s n j ≡ some (g, x) → ¬ In x
  NearestEntry s n In (some (g, k)) =
      (x : Key) × (sec s n k ≡ some (g, x))
      × In x
      × ((j g : ℕ) (y : Key) → sec s n j ≡ some (g, y) → In y → o.Le x y)

  pub record IndexLaws : Type 0 where
    pub idx_lower :
        (s : Store) (n : ℕ) (x : Key) → NearestEntry s n (λ y. o.Le x y) (host.idx_lowerbound s n x)
