-- ===== src/Map/Reverse.antt =====
-- The reverse iterators of libraries/eosiolib/contracts/eosio/map.hpp: `++` checks after it has moved.
use taurus_cdt.Prelude.{◌≡◌, ◌≢◌, ◌⊎◌, refl, ◌∙◌, subst, Option, none, some, inl, inr, ok, err}
use taurus_cdt.Kv.Keys
use taurus_cdt.Kv.Keys.{Bytes}
use taurus_cdt.Kv.Host.{KvHost}
use taurus_cdt.Kv.Cursors.{iterator_ok, KvCursors, First, Back, Lt, CursorLaws}
use taurus_cdt.Map.{incrementing_past_end, MapType, self_prefix}
use taurus_cdt.Map.Iterator.{Iterator, moved, reverse_increment}
use taurus_cdt.Map.Position.{place}

module _ {K V : Type 0} (t : MapType K V) {host : KvHost} (cursors : KvCursors host)
    (laws : CursorLaws cursors) (s : host.Store) where
  open host use {kv_get}
  open cursors use {kv_it_prev, prefix_of, stands, Le}

  -- The key under the map's prefix.
  abbrev pub under : Bytes → Bytes
  under r = Keys.full_key (self_prefix t) r

  -- It stands at the last key in use before another, where the map has one.
  pub record Before (it : Iterator t host cursors) (k j : Bytes) : Type 0 where
    pub stays_of_map : prefix_of it.handle ≡ self_prefix t
    pub stands_there : place t cursors laws it ≡ some j
    pub used : kv_get s j ≢ none
    pub lower : Lt cursors j k
    pub last : (r : Bytes) → Lt cursors (under r) k → kv_get s (under r) ≢ none → Le (under r) j
    pub valid : it.current_status ≡ iterator_ok

  -- What `++` of a reverse iterator at a key does: it moves to the last key in use before, or there is none and it
  -- fails.
  abbrev pub Moves : Iterator t host cursors → Bytes → Type 0
  Moves it k =
      ((it' : Iterator t host cursors) × (j : Bytes) × (reverse_increment t host cursors s it
          ≡ ok it')
        × Before it' k j)
      ⊎ ((reverse_increment t host cursors s it ≡ err incrementing_past_end)
          × ((r : Bytes) → Lt cursors (under r) k → kv_get s (under r) ≡ none))

  First-Moves :
      (it : Iterator t host cursors) (k : Bytes) (o : Option Bytes)
      → prefix_of it.handle ≡ self_prefix t
      → (let m = kv_it_prev s it.handle in
          First cursors s (self_prefix t) (Back cursors) (λ j. Lt cursors j k) m.0 o
          × (stands m.1 ≡ o))
      → Moves it k
  unfolding reverse_increment
  First-Moves it k none e ((q, f), a) = inr (rw q refl, f)
  First-Moves it k (some j) e ((q, u, l, n, f), a) = inl (
    moved t host cursors (kv_it_prev s it.handle),
    j,
    rw q refl,
    record {
      stays_of_map = laws.prefix-prev s it.handle ∙ e;
      stands_there = a;
      used = u;
      lower = l;
      last = f;
      valid = q;
    },
  )

  -- `++` of a reverse iterator that stands at a key in use moves to the last key in use before it, or, where there is
  -- none, it fails: it does not become `rend()`.
  pub reverse_increment-Moves :
      (it : Iterator t host cursors) (k : Bytes)
      → prefix_of it.handle ≡ self_prefix t
      → place t cursors laws it ≡ some k
      → kv_get s k ≢ none
      → Moves it k
  reverse_increment-Moves it k e at n = First-Moves it k (stands (kv_it_prev s it.handle).1) e (
    subst
        (λ p.
          First cursors s p (Back cursors) (λ j. Lt cursors j k) (kv_it_prev s it.handle).0
            (stands (kv_it_prev s it.handle).1))
        e (laws.prev s it.handle k at n),
    refl,
  )
