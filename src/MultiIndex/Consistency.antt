-- ===== src/MultiIndex/Consistency.antt =====
-- `multi_index` of libraries/eosiolib/contracts/eosio/multi_index.hpp: what the host holds for a table, and
-- what the cache of a table object says of it.
use taurus_cdt.Prelude.{ℕ, ◌≡◌, ◌≢◌, ap, ◌∙◌, List, [], ◌∷◌, Option, none, some, get_elem?, All}
use taurus_cdt.MultiIndex.Host.{DbHost}
use taurus_cdt.MultiIndex.{Schema, Lawful, Item, Table}

module _ {V Key : Type 0} (t : Schema V Key) (host : DbHost Key) where
  open host use {Store, lookup, sec}

  -- The entry of an object in an index, and the handle of it that an item remembers, if it does.
  pub record Entry (obj : V) (e : V → Key) (iter : Option ℕ) (entry : Option (ℕ × Key))
      : Type 0 where
    pub handle : ℕ
    pub entered : entry ≡ some (handle, e obj)
    pub remembered : (g : ℕ) → iter ≡ some g → g ≡ handle

  -- Each index has the entry of the object, under its primary key.
  abbrev pub Entered : Store → V → (ℕ → Option ℕ) → Type 0
  Entered s obj iters =
      (n : ℕ) (e : V → Key)
      → get_elem? t.extractors n ≡ some e
      → Entry obj e (iters n) (sec s n (t.primary_key obj))

  pub record Row (s : Store) (k h : ℕ) (b : List ℕ) : Type 0 where
    pub obj : V
    pub packed : b ≡ t.pack obj
    pub keyed : t.primary_key obj ≡ k
    pub entered : Entered s obj (λ n. none)

  -- Each row is packed and stands under its primary key, with its entries in the indices, and there are
  -- no other entries.
  pub record Filed (s : Store) : Type 0 where
    pub rows : (k h : ℕ) (b : List ℕ) → lookup s k ≡ some (h, b) → Row s k h b
    pub bare :
        (k n : ℕ) (e : V → Key)
        → lookup s k ≡ none
        → get_elem? t.extractors n ≡ some e
        → sec s n k ≡ none

  -- A cached item is the row of its key.
  pub record Cached (s : Store) (i : Item V) : Type 0 where
    pub row : lookup s (t.primary_key i.obj) ≡ some (i.primary_itr, t.pack i.obj)
    pub entered : Entered s i.obj i.iters

  -- No two items have one key.
  abbrev pub Distinct : List (Item V) → Type 0
  Distinct [] = Unit {0}
  Distinct (x ∷ xs) =
      All (λ (y : Item V). t.primary_key y.obj ≢ t.primary_key x.obj) xs × Distinct xs

  pub record Consistent (m : Table t host) : Type 0 where
    pub filed : Filed m.store
    pub cached : All (Cached m.store) m.items
    pub distinct : Distinct m.items

  abbrev row_content : Option (ℕ × List ℕ) → Option V
  row_content none = none
  row_content (some (h, b)) = t.unpack b

  -- The abstract table: the object of each primary key.
  unfoldable pub content : Store → ℕ → Option V
  content s k = row_content (lookup s k)

  pub content-row :
      Lawful t
      → (s : Store) (k h : ℕ) (v : V) → lookup s k ≡ some (h, t.pack v)
      → content s k ≡ some v
  unfolding content
  content-row laws s k h v e = ap row_content e ∙ laws.unpack-pack v

  pub content-none : (s : Store) (k : ℕ) → lookup s k ≡ none → content s k ≡ none
  unfolding content
  content-none s k e = ap row_content e

  pub content-lookup :
      (s s' : Store) (j k : ℕ) → lookup s' j ≡ lookup s k → content s' j ≡ content s k
  unfolding content
  content-lookup s s' j k e = ap row_content e

  pub content-Cached :
      Lawful t
      → (s : Store) (i : Item V) → Cached s i
      → content s (t.primary_key i.obj) ≡ some i.obj
  content-Cached laws s i c = content-row laws s (t.primary_key i.obj) i.primary_itr i.obj c.row
