-- ===== src/Map/Find.antt =====
-- `find` of `map` in libraries/eosiolib/contracts/eosio/map.hpp against the reads by key.
use taurus_cdt.Prelude.{
  ◌≡◌, ◌≢◌, ◌⊎◌, refl, sym, ap, ◌∙◌, subst, Option, none, some, Option-cases, Bool-cases, inl, inr,
  true, false, Result, ok, err, ◌>>=◌,
}
use taurus_cdt.Kv.Keys
use taurus_cdt.Kv.Keys.{Bytes}
use taurus_cdt.Kv.Host.{KvHost}
use taurus_cdt.Kv.Cursors.{Status, iterator_ok, KvCursors, First, CursorLaws}
use taurus_cdt.Kv.Iterator.{is_equal}
use taurus_cdt.Map.{
  Failure, key_not_found, MapType, Elem, prefix, self_prefix, full_key, unpacked, get, contains, at,
}
use taurus_cdt.Map.Iterator.{
  Iterator, create, seek_lower_bound, is_valid, same, materialize, end, find,
}
use taurus_cdt.Map.Position.{
  true→equal, equal→true, place, Ended, lower_bound-Placed, seek_to_end-Ended, end-Ended,
  Ended-Settled, same-places, materialize-place,
}

module _ {K V : Type 0} (t : MapType K V) {host : KvHost} (cursors : KvCursors host)
    (laws : CursorLaws cursors) (s : host.Store) (k : K) where
  open host use {kv_get}
  open cursors use {kv_it_key_compare, prefix_of, stands, Le}

  abbrev fk : Bytes
  fk = full_key t k

  abbrev bound : Iterator t host cursors
  bound = seek_lower_bound t host cursors s (create t host cursors) fk

  -- `find` stays where the lower bound stands at the key, and goes to the end else.
  find_at : place t cursors laws bound ≡ some fk → find t host cursors s k ≡ bound
  unfolding find
  find_at e = rw (equal→true _ ((laws.compare_equal bound.handle fk).1 e)) refl

  pub find_elsewhere :
      place t cursors laws bound ≢ some fk → Ended t cursors laws (find t host cursors s k)
  unfolding find
  find_elsewhere n = elim (Bool-cases (is_equal (kv_it_key_compare bound.handle fk))) [
    | inl e ↦ absurd (n ((laws.compare_equal bound.handle fk).0 (true→equal _ e)))
    | inr e ↦
        rw e
          (seek_to_end-Ended t cursors laws s bound (lower_bound-Placed t cursors laws s fk).of_map)
  ]

  pub Ended-same :
      (it : Iterator t host cursors)
      → Ended t cursors laws it
      → same t host cursors it (end t host cursors s) ≡ true
  Ended-same it e =
      let d = end-Ended t cursors laws s in
      (same-places t cursors laws it (end t host cursors s) (Ended-Settled t cursors laws it e)
          (Ended-Settled t cursors laws _ d)).1
        (e.nowhere ∙ sym d.nowhere)

  key_under : prefix t ≡ self_prefix t → fk ≡ Keys.full_key (self_prefix t) (t.convert_to_key k)
  unfolding full_key
  key_under p = rw p refl

  from_itself :
      prefix t ≡ self_prefix t → Le fk (Keys.full_key (self_prefix t) (t.convert_to_key k))
  from_itself p = subst (Le fk) (key_under p) (laws.le_refl fk)

  -- A key in use is where its lower bound stands, if the iterators have the map's prefix.
  used_at :
      (st : Status) (o : Option Bytes)
      → prefix t ≡ self_prefix t
      → First cursors s (self_prefix t) Le (λ j. Le fk j) st o
      → kv_get s fk ≢ none
      → (o ≡ some fk) × (st ≡ iterator_ok)
  used_at st none p f n =
      absurd (n (ap (kv_get s) (key_under p) ∙ f.1 (t.convert_to_key k) (from_itself p)))
  used_at st (some j) p (e, u, l, under, least) n =
      let n' : kv_get s (Keys.full_key (self_prefix t) (t.convert_to_key k)) ≢ none =
        λ m. n (ap (kv_get s) (key_under p) ∙ m) in
      let m : Le j fk =
        subst (Le j) (sym (key_under p)) (least (t.convert_to_key k) (from_itself p) n') in
      (ap some (laws.le_antisym j fk m l), e)

  abbrev found : V → Result Failure (Elem V)
  found v = ok (record { key = fk; value = v })

  read_elem :
      (r : Result Failure V)
      → (r >>= found)
        ≡ ((r >>= λ v. ok (some v)) >>= λ o. elim o [ none ↦ err key_not_found | some v ↦ found v ])
  read_elem (ok v) = refl
  read_elem (err e) = refl

  unused_at :
      (st : Status) (o : Option Bytes)
      → First cursors s (self_prefix t) Le (λ j. Le fk j) st o
      → kv_get s fk ≡ none
      → o ≢ some fk
  unused_at st none f n e = cc
  unused_at st (some j) (e', u, l, under, least) n e =
      let z : j ≡ fk = cc in u (ap (kv_get s) z ∙ n)

  -- A map with the index name by default: `find` of a key reads what `at` does where the map contains the key;
  -- else it gives the end, and `at` fails.
  pub find-at :
      prefix t ≡ self_prefix t
      → ((contains t host s k ≡ true)
          × (is_valid t host cursors (find t host cursors s k) ≡ true)
          × (materialize t host cursors s (find t host cursors s k) ≡ at t host s k))
        ⊎ ((contains t host s k ≡ false)
            × (same t host cursors (find t host cursors s k) (end t host cursors s) ≡ true)
            × (at t host s k ≡ err key_not_found))
  unfolding contains at get is_valid
  find-at p = elim (Option-cases (kv_get s fk)) [
    | inl e ↦
        (let f = find_elsewhere (
            unused_at bound.current_status (place t cursors laws bound)
              (lower_bound-Placed t cursors laws s fk).first e) in
          inr (rw (contains, e) refl, Ended-same (find t host cursors s k) f, rw (at, get, e) refl))
    | inr (b, e) ↦
        (let n : kv_get s fk ≢ none = λ m. let u : none ≡ some b = sym m ∙ e in cc in
          let (w, st) =
            used_at bound.current_status (place t cursors laws bound) p
              (lower_bound-Placed t cursors laws s fk).first n in
          let f = find_at w in
          inl (
            rw (contains, e) refl,
            rw (f, st) refl,
            rw f (
                materialize-place t cursors laws s bound fk b w e
                ∙ rw (at, get, e) (read_elem (unpacked t host b))),
          ))
  ]
