-- ===== src/Extension.antt =====
-- `binary_extension` of libraries/eosiolib/core/eosio/binary_extension.hpp: a value that may be absent, in a
-- storage of its own. `storage` is the object that lives in the storage, if one does; an access without one has
-- no behaviour, and is `none` here.
pub mod Assign
use taurus_cdt.Prelude.{
  ℕ, Bool, true, false, ◌==◌, if◌then◌else◌, Option, none, some, Result, ok, err, ◌>>=◌, ◌>>◌,
  check, List, [], ◌∷◌,
}

pub data Failure : Type 0 where
  empty_extension no_object stream_failed : Failure

pub record Extension (V : Type 0) : Type 0 where
  pub has_value : Bool
  pub storage : Option V

-- The objects of a program, by address.
abbrev pub Objects : Type 0 → Type 0
Objects V = ℕ → Extension V

module _ {V : Type 0} where
  unfoldable pub empty : Extension V
  empty = record { has_value = false; storage = none }

  -- The constructors from a value.
  unfoldable pub of_value : V → Extension V
  of_value v = record { has_value = true; storage = some v }

  -- `_get`
  unfoldable pub get : Extension V → Result Failure V
  get e = elim e.storage [ none ↦ err no_object | some v ↦ ok v ]

  -- `value`
  unfoldable pub value : Extension V → Result Failure V
  unfolding get
  value e = check e.has_value empty_extension >> get e

  unfoldable pub reset : Extension V → Extension V
  reset e = if e.has_value then record { has_value = false; storage = none } else e

  -- A value constructed in place.
  unfoldable pub emplace : V → Extension V → Extension V
  unfolding reset
  emplace v e = record (reset e) { has_value = true; storage = some v }

  -- `value_or`, with the default that is given or that the type has. The fourth form, of an object that
  -- may be moved from, leaves it without a value.
  unfoldable pub value_or : V → Extension V → Result Failure V
  unfolding get
  value_or def e = if e.has_value then get e else ok def

  unfoldable pub take_value_or : V → Extension V → Result Failure V × Extension V
  unfolding get
  take_value_or def e = if e.has_value then (get e, record e { has_value = false }) else (ok def, e)

  -- The copy constructor.
  unfoldable pub copy_of : Extension V → Result Failure (Extension V)
  unfolding get of_value empty
  copy_of other = if other.has_value then (get other >>= λ v. ok (of_value v)) else ok empty

  -- The move constructor, with what it leaves of the other: `moved` is what a move leaves of a value.
  unfoldable pub move_of : (V → V) → Extension V → Result Failure (Extension V × Extension V)
  unfolding get of_value empty
  move_of moved other =
      if other.has_value
      then (get other >>= λ v.
          ok (of_value v, record { has_value = false; storage = some (moved v) }))
      else ok (empty, other)

  abbrev pub put : Objects V → ℕ → Extension V → Objects V
  put m a e b = if b == a then e else m b

  -- What both assignments begin with.
  unfoldable pub reset_at : Objects V → ℕ → Objects V
  unfolding reset
  reset_at m a = put m a (reset (m a))

  -- `*a = *b`
  unfoldable pub assign : Objects V → ℕ → ℕ → Result Failure (Objects V)
  unfolding reset_at get
  assign m a b =
      let m' = reset_at m a in
      if (m' b).has_value
      then (get (m' b) >>= λ v. ok (put m' a (record { has_value = true; storage = some v })))
      else ok m'

  -- `*a = std::move( *b )`: the value is copied, and the other keeps its object.
  unfoldable pub move_assign : Objects V → ℕ → ℕ → Result Failure (Objects V)
  unfolding reset_at get
  move_assign m a b =
      let m' = reset_at m a in
      if (m' b).has_value
      then (get (m' b) >>= λ v.
          let m'' = put m' a (record { has_value = true; storage = some v }) in
          ok (put m'' b (record (m'' b) { has_value = false })))
      else ok m'

  -- The operators of a stream, with the codec of the values and the bytes that remain.
  unfoldable pub write_to : (V → List ℕ) → V → Extension V → Result Failure (List ℕ)
  unfolding value_or
  write_to pack def e = value_or def e >>= λ v. ok (pack v)

  unfoldable pub read_from :
      (List ℕ → Option (V × List ℕ)) → List ℕ → Extension V → Result Failure (Extension V × List ℕ)
  unfolding emplace
  read_from unpack [] e = ok (e, [])
  read_from unpack (c ∷ bytes) e = elim (unpack (c ∷ bytes)) [
    | none ↦ err stream_failed
    | some (v, rest) ↦ ok (emplace v e, rest)
  ]
