-- ===== src/Dispatch/Tests.antt =====
-- A dispatcher of three notifications, with names of one character.
use taurus_cdt.Prelude.{ℕ, ◌≡◌, refl, List, [], ◌∷◌, All, length, arith}
use taurus_cdt.Kv.Keys.{Bytes, bytes_eq}
use taurus_cdt.Dispatch.{
  Notify, is_any, string_less, pair_less, less, generate_eosio_dispatch, refuses, nothing, called,
  own_action, run_actions, apply,
}
use taurus_cdt.Dispatch.Handlers.{Sorted, handler_for, apply-handler_for}

abbrev first_char : Bytes → ℕ
first_char [] = 0
first_char (x ∷ xs) = x

abbrev OneChar : Bytes → Type 0
OneChar s = length s ≡ 1

first_char-injective : (x y : Bytes) → OneChar x → OneChar y → first_char x ≡ first_char y → x ≡ y
first_char-injective [] y p q e = absurd (omega (arith, p))
first_char-injective (a ∷ b ∷ x) y p q e = absurd (omega (arith, p))
first_char-injective (a ∷ []) [] p q e = absurd (omega (arith, q))
first_char-injective (a ∷ []) (c ∷ d ∷ y) p q e = absurd (omega (arith, q))
first_char-injective (a ∷ []) (c ∷ []) p q e = cc

abbrev notifications : List Notify
notifications =
    record { name = 97 ∷ []; contract = 98 ∷ []; handler = 1 ∷ [] }
    ∷ record { name = 97 ∷ []; contract = 42 ∷ []; handler = 2 ∷ [] }
    ∷ record { name = 99 ∷ []; contract = 42 ∷ []; handler = 3 ∷ [] }
    ∷ []

notifications-Sorted : Sorted notifications
unfolding less is_any pair_less string_less bytes_eq
notifications-Sorted = (refl, (refl, tt))

names-OneChar : All (λ w. OneChar w.name) notifications
names-OneChar = (refl, (refl, (refl, tt)))

-- An action of the contract itself that has no handler is not let through.
own_action_unknown :
    own_action first_char (record { name = 97 ∷ []; handler = 1 ∷ [] } ∷ []) 5 98 ≡ refuses
unfolding own_action run_actions
own_action_unknown = refl

-- But a contract without actions lets every action through.
own_action_without : own_action first_char [] 5 98 ≡ nothing
unfolding own_action
own_action_without = refl

apply-handler_for_example :
    apply first_char (generate_eosio_dispatch [] notifications) 5 98 97
    ≡ called (handler_for first_char notifications 97 98)
apply-handler_for_example =
    apply-handler_for first_char OneChar first_char-injective [] notifications 5 98 97
      notifications-Sorted names-OneChar (λ e. omega (arith, e))
