-- ===== src/Extension/Assign.antt =====
-- The assignments of `binary_extension` in libraries/eosiolib/core/eosio/binary_extension.hpp.
use taurus_cdt.Prelude.{
  ℕ, ◌≡◌, ◌≢◌, refl, sym, ap, ◌∙◌, Bool, true, false, if◌then◌else◌, Option, none, some, ok,
  Bool-cases, inl, inr, ==_refl, ne→==-false,
}
use taurus_cdt.Extension.{Extension, get, reset, Objects, put, reset_at, assign}

module _ {V : Type 0} where
  -- The extension, as a value that may be absent.
  abbrev pub content : Extension V → Option V
  content e = if e.has_value then e.storage else none

  -- Where a value is flagged, an object lives.
  abbrev pub IsWhole : Extension V → Type 0
  IsWhole e = e.has_value ≡ true → (v : V) × (e.storage ≡ some v)

  reset_flag :
      (b : Bool) (o : Option V) → (reset (record { has_value = b; storage = o })).has_value ≡ false
  unfolding reset
  reset_flag true o = refl
  reset_flag false o = refl

  reset-content : (e : Extension V) → (reset e).has_value ≡ false
  reset-content e = reset_flag e.has_value e.storage

  get_lives : (e : Extension V) (v : V) → e.storage ≡ some v → get e ≡ ok v
  unfolding get
  get_lives e v h = rw (get, h) refl

  -- The assignment of an object to itself, which has a value or not, leaves it without one.
  pub assign_self :
      (m : Objects V) (a : ℕ) → (m' : Objects V) × (assign m a a ≡ ok m') × (content (m' a) ≡ none)
  unfolding assign reset_at
  assign_self m a =
      let r : (reset_at m a a).has_value ≡ false = rw (==_refl a) (reset-content (m a)) in
      (reset_at m a, rw r refl, rw r refl)

  -- The assignment of another object gives its content, and leaves that object, and all others.
  pub assign-content :
      (m : Objects V) (a b : ℕ)
      → a ≢ b
      → IsWhole (m b)
      → (m' : Objects V) × (assign m a b ≡ ok m')
        × (content (m' a) ≡ content (m b))
        × ((c : ℕ) → c ≢ a → m' c ≡ m c)
  unfolding assign reset_at
  assign-content m a b d w =
      let o : reset_at m a b ≡ m b = rw (ne→==-false b a (λ e. d (sym e))) refl in
      elim (Bool-cases (m b).has_value) [
        | inr p ↦
            (let q : (reset_at m a b).has_value ≡ false =
                ap (λ (e : Extension V). e.has_value) o ∙ p in
              (
                reset_at m a,
                rw q refl,
                rw (==_refl a, reset-content (m a), p) refl,
                λ c n. rw (ne→==-false c a n) refl,
              ))
        | inl p ↦
            (let (v, l) = w p in
              let q : (reset_at m a b).has_value ≡ true =
                ap (λ (e : Extension V). e.has_value) o ∙ p in
              let g : (reset_at m a b).storage ≡ some v =
                ap (λ (e : Extension V). e.storage) o ∙ l in
              (
                put (reset_at m a) a (record { has_value = true; storage = some v }),
                rw (q, get_lives (reset_at m a b) v g) refl,
                rw (==_refl a, p, l) refl,
                λ c n. rw (ne→==-false c a n) refl,
              ))
      ]
