-- ===== src/Map/Position.antt =====
-- Where the iterators of libraries/eosiolib/contracts/eosio/map.hpp stand after each move.
use taurus_cdt.Prelude.{
  ◌≡◌, ◌≢◌, ◌↔◌, refl, sym, ◌∙◌, subst, Option, none, some, Bool-cases, inl, inr, Bool, true, false,
  ◌||◌, ◌&&◌, ok, ◌>>=◌,
}
use taurus_cdt.Kv.Keys.{Bytes}
use taurus_cdt.Kv.Host.{KvHost}
use taurus_cdt.Kv.Cursors.{
  Status, iterator_ok, iterator_end, Sign, negative, equal, positive, KvCursors, First, Lt,
  CursorLaws,
}
use taurus_cdt.Kv.Iterator.{is_end, is_equal}
use taurus_cdt.Map.{MapType, self_prefix, unpacked}
use taurus_cdt.Map.Iterator.{
  Iterator, moved, create, seek_lower_bound, seek_to_end, settle, increment, same, materialize, end,
}

pub equal→true : (c : Sign) → c ≡ equal → is_equal c ≡ true
equal→true c e = rw e refl

pub true→equal : (c : Sign) → is_equal c ≡ true → c ≡ equal
true→equal negative e = cc
true→equal equal e = refl
true→equal positive e = cc

both_ends : (a b c : Bool) → (a && b || c) ≡ true → c ≡ false → (a ≡ true) × (b ≡ true)
both_ends true true c e f = (refl, refl)
both_ends true false c e f = absurd (cc)
both_ends false b c e f = absurd (cc)

or_true : (a : Bool) → (a || true) ≡ true
or_true true = refl
or_true false = refl

module _ {K V : Type 0} (t : MapType K V) {host : KvHost} (cursors : KvCursors host)
    (laws : CursorLaws cursors) where
  open host use {Store, kv_get}
  open cursors use {
    Cursor, kv_it_create, kv_it_lower_bound, kv_it_next, kv_it_prev, kv_it_move_to_end,
    kv_it_compare, prefix_of, stands, Le,
  }

  -- Iterators of the map, and the place where one stands.
  abbrev pub It : Type 0
  It = Iterator t host cursors

  abbrev pub place : It → Option Bytes
  place it = stands it.handle

  -- It stands at the first key in use of a range, in an order.
  pub record Placed (s : Store) (order : Bytes → Bytes → Type 0) (In : Bytes → Type 0) (it : It)
      : Type 0 where
    pub of_map : prefix_of it.handle ≡ self_prefix t
    pub first : First cursors s (self_prefix t) order In it.current_status (place it)

  pub create-prefix : prefix_of (create t host cursors).handle ≡ self_prefix t
  unfolding create
  create-prefix = laws.prefix-create (self_prefix t)

  pub lower_bound-Placed :
      (s : Store) (k : Bytes)
      → Placed s Le (λ j. Le k j) (seek_lower_bound t host cursors s (create t host cursors) k)
  unfolding seek_lower_bound
  lower_bound-Placed s k =
      let c = (create t host cursors).handle in
      record {
        of_map = laws.prefix-lower_bound s c k ∙ create-prefix;
        first =
            subst
              (λ p.
                First cursors s p Le (λ j. Le k j) (kv_it_lower_bound s c k).0
                  (stands (kv_it_lower_bound s c k).1))
              create-prefix (laws.lower s c k);
      }

  -- It is at the end.
  pub record Ended (it : It) : Type 0 where
    pub of_map : prefix_of it.handle ≡ self_prefix t
    pub at_end : it.current_status ≡ iterator_end
    pub nowhere : place it ≡ none

  pub seek_to_end-Ended :
      (s : Store) (it : It)
      → prefix_of it.handle ≡ self_prefix t
      → Ended (seek_to_end t host cursors s it)
  unfolding seek_to_end
  seek_to_end-Ended s it e =
      let (a, b) = laws.to_end s it.handle in
      record { of_map = laws.prefix-move_to_end s it.handle ∙ e; at_end = a; nowhere = b }

  pub end-Ended : (s : Store) → Ended (end t host cursors s)
  unfolding end
  end-Ended s = seek_to_end-Ended s (create t host cursors) create-prefix

  -- The status tells whether it stands at a key.
  pub record Settled (it : It) : Type 0 where
    pub of_map : prefix_of it.handle ≡ self_prefix t
    pub ended : (place it ≡ none) ↔ (is_end it.current_status ≡ true)

  pub Ended-Settled : (it : It) → Ended it → Settled it
  Ended-Settled it e = record { of_map = e.of_map; ended = (λ n. rw e.at_end refl, λ n. e.nowhere) }

  first_settled :
      (s : Store) (order : Bytes → Bytes → Type 0) (In : Bytes → Type 0) (st : Status)
      (o : Option Bytes)
      → First cursors s (self_prefix t) order In st o
      → (o ≡ none) ↔ (is_end st ≡ true)
  first_settled s order In st none f = (λ n. rw f.0 refl, λ n. refl)
  first_settled s order In st (some k) f = (λ n. cc, λ n. let u : false ≡ true = rw f.0 at n in cc)

  pub Placed-Settled :
      (s : Store) (order : Bytes → Bytes → Type 0) (In : Bytes → Type 0) (it : It)
      → Placed s order In it
      → Settled it
  Placed-Settled s order In it p = record {
    of_map = p.of_map;
    ended = first_settled s order In it.current_status (place it) p.first;
  }

  -- Two iterators are equal where they stand at one place.
  pub same-places :
      (a b : It) → Settled a → Settled b → (same t host cursors a b ≡ true) ↔ (place a ≡ place b)
  unfolding same
  same-places a b p q =
      let law = laws.compare_cursors a.handle b.handle (p.of_map ∙ sym q.of_map) in
      (
        λ e. elim (Bool-cases (is_equal (kv_it_compare a.handle b.handle))) [
          | inl c ↦ law.0 (true→equal _ c)
          | inr c ↦
              (let (x, y) = both_ends (is_end a.current_status) (is_end b.current_status) _ e c in
                p.ended.1 x ∙ sym (q.ended.1 y))
        ],
        λ e.
            rw (equal→true _ (law.1 e))
              (or_true (is_end a.current_status && is_end b.current_status)),
      )

  first_of_end :
      (s : Store) (order : Bytes → Bytes → Type 0) (In : Bytes → Type 0) (st st' : Status)
      (o o' : Option Bytes)
      → First cursors s (self_prefix t) order In st o
      → o ≡ none
      → st' ≡ iterator_end
      → o' ≡ none
      → First cursors s (self_prefix t) order In st' o'
  first_of_end s order In st st' none none f e e' n = (e', f.1)
  first_of_end s order In st st' (some k) o' f e e' n = cc
  first_of_end s order In st st' none (some k) f e e' n = cc

  pub settle-Placed :
      (s : Store) (order : Bytes → Bytes → Type 0) (In : Bytes → Type 0) (it : It)
      → Placed s order In it
      → Placed s order In (settle t host cursors s it)
  settle-Placed s order In it p = elim (Bool-cases (is_end it.current_status)) [
    | inr e ↦ rw e p
    | inl e ↦
        (let d = seek_to_end-Ended s it p.of_map in
          let n = (Placed-Settled s order In it p).ended.1 e in
          let q : Placed s order In (seek_to_end t host cursors s it) = record {
            of_map = d.of_map;
            first =
                first_of_end s order In it.current_status _ (place it) _ p.first n d.at_end
                  d.nowhere;
          } in
          rw e q)
  ]

  -- From a key in use, `++` goes to the next one, or to the end.
  pub increment-Placed :
      (s : Store) (it : It) (k : Bytes)
      → prefix_of it.handle ≡ self_prefix t
      → it.current_status ≡ iterator_ok
      → place it ≡ some k
      → kv_get s k ≢ none
      → (it' : It) × (increment t host cursors s it ≡ ok it')
        × Placed s Le (λ j. Lt cursors k j) it'
  unfolding increment
  increment-Placed s it k m e at n =
      let it₁ : It = moved t host cursors (kv_it_next s it.handle) in
      let f =
        subst (λ p. First cursors s p Le (λ j. Lt cursors k j) it₁.current_status (place it₁)) m
          (laws.next s it.handle k at n) in
      let p : Placed s Le (λ j. Lt cursors k j) it₁ = record {
        of_map = laws.prefix-next s it.handle ∙ m;
        first = f;
      } in
      (settle t host cursors s it₁, rw e refl, settle-Placed s Le (λ j. Lt cursors k j) it₁ p)

  -- What an iterator reads.
  pub materialize-place :
      (s : Store) (it : It) (k b : Bytes)
      → place it ≡ some k
      → kv_get s k ≡ some b
      → materialize t host cursors s it
        ≡ (unpacked t host b >>= λ v. ok (record { key = k; value = v }))
  unfolding materialize
  materialize-place s it k b at g =
      let n : kv_get s k ≢ none = λ e. let u : none ≡ some b = sym e ∙ g in cc in
      rw (laws.reads_key s it.handle k at n, laws.reads s it.handle k b at g) refl
