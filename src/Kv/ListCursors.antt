-- ===== src/Kv/ListCursors.antt =====
-- Cursors of a database that is a list of changes: a lower bound is the least key of those in use from a key
-- on, in the lexicographic order. For the examples.
use taurus_cdt.Prelude.{
  ◌≡◌, [], ◌∷◌, Option, none, some, Bool, true, false, not, ◌&&◌, ◌==◌, if◌then◌else◌,
}
use taurus_cdt.Kv.Keys.{Bytes, bytes_eq}
use taurus_cdt.Kv.Cursors.{
  Status, iterator_ok, iterator_erased, iterator_end, Sign, negative, equal, positive, KvCursors,
}
use taurus_cdt.Kv.ListHost.{Changes, lookup, list_host, bytes_leb}

pub record Cursor : Type 0 where
  pub prefix : Bytes
  pub stands : Option Bytes

abbrev pub has_prefix : Bytes → Bytes → Bool
has_prefix [] j = true
has_prefix (x ∷ p) [] = false
has_prefix (x ∷ p) (y ∷ j) = x == y && has_prefix p j

abbrev pub is_used : Option Bytes → Bool
is_used none = false
is_used (some b) = true

abbrev pub pick : (Bytes → Bytes → Bool) → Bytes → Option Bytes → Bytes
pick before j none = j
pick before j (some c) = if before j c then j else c

-- The first, in an order, of the keys that pass a test.
abbrev pub best : (Bytes → Bytes → Bool) → (Bytes → Bool) → Changes → Option Bytes
best before test [] = none
best before test ((j, v) ∷ l) =
    let rest = best before test l in if test j then some (pick before j rest) else rest

abbrev pub candidate : Changes → Bytes → Bytes → Bool
candidate s p j = has_prefix p j && is_used (lookup s j)

abbrev pub status_of : Option Bytes → Status
status_of none = iterator_end
status_of (some k) = iterator_ok

abbrev pub moved : Bytes → Option Bytes → Status × Cursor
moved p o = (status_of o, record { prefix = p; stands = o })

abbrev pub key_sign : Option Bytes → Bytes → Sign
key_sign none k = positive
key_sign (some j) k = if bytes_eq j k then equal else if bytes_leb j k then negative else positive

abbrev pub cursor_sign : Option Bytes → Option Bytes → Sign
cursor_sign none none = equal
cursor_sign (some j) none = negative
cursor_sign o (some k) = key_sign o k

abbrev pub after : Option Bytes → Bytes → Bool
after none j = true
after (some k) j = bytes_leb k j && not (bytes_eq k j)

abbrev pub ahead : Option Bytes → Bytes → Bool
ahead none j = true
ahead (some k) j = bytes_leb j k && not (bytes_eq k j)

abbrev pub value_at : Option Bytes → Status × Bytes
value_at none = (iterator_erased, [])
value_at (some b) = (iterator_ok, b)

abbrev pub list_cursors : KvCursors list_host
list_cursors = record {
  Cursor = Cursor;
  kv_it_create = λ p. record { prefix = p; stands = none };
  kv_it_lower_bound =
      λ s c k. moved c.prefix (best bytes_leb (λ j. candidate s c.prefix j && bytes_leb k j) s);
  kv_it_next =
      λ s c. moved c.prefix (best bytes_leb (λ j. candidate s c.prefix j && after c.stands j) s);
  kv_it_prev = λ s c.
      moved c.prefix
        (best (λ j k. bytes_leb k j) (λ j. candidate s c.prefix j && ahead c.stands j) s);
  kv_it_move_to_end = λ s c. moved c.prefix none;
  kv_it_compare = λ a b. cursor_sign a.stands b.stands;
  kv_it_key_compare = λ c k. key_sign c.stands k;
  kv_it_value = λ s c. elim c.stands [ none ↦ (iterator_end, []) | some k ↦ value_at (lookup s k) ];
  kv_it_key = λ s c. elim c.stands [ none ↦ (iterator_end, []) | some k ↦ (iterator_ok, k) ];
  prefix_of = λ c. c.prefix;
  stands = λ c. c.stands;
  Le = λ j k. bytes_leb j k ≡ true;
}
