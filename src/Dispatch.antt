-- ===== src/Dispatch.antt =====
-- The dispatcher that tools/src/eosio-codegen.cpp generates: `generate_eosio_dispatch`, with the order of
-- notifications in tools/include/eosio/cdt_abi.hpp. The text of `apply` is the tree of its statements, and `apply` here
-- is what C does with it. The value of a name literal is the library abieos': a parameter.
pub mod Handlers
mod Tests
use taurus_cdt.Prelude.{
  ℕ, List, [], ◌∷◌, ◌++◌, map, Bool, true, false, not, ◌&&◌, ◌||◌, ◌==◌, if◌then◌else◌, Option,
  none, some,
}
use taurus_cdt.Kv.Keys.{Bytes, bytes_eq}
use taurus_cdt.Kv.ListHost.{bytes_leb}

-- `wasm_action`
pub record Action : Type 0 where
  pub name : Bytes
  pub handler : Bytes

-- `wasm_notify`
pub record Notify : Type 0 where
  pub name : Bytes
  pub contract : Bytes
  pub handler : Bytes

-- Whether a string is "*".
unfoldable pub is_any : Bytes → Bool
is_any s = bytes_eq s (42 ∷ [])

-- `<` of strings, and of the pairs of name and contract.
unfoldable pub string_less : Bytes → Bytes → Bool
string_less x y = not (bytes_leb y x)

unfoldable pub pair_less : Notify → Notify → Bool
unfolding string_less
pair_less l r =
    string_less l.name r.name
    || (not (string_less r.name l.name) && string_less l.contract r.contract)

-- `std::less<wasm_notify>`
unfoldable pub less : Notify → Notify → Bool
unfolding is_any pair_less
less l r =
    if bytes_eq l.name r.name
    then (if is_any l.contract && not (is_any r.contract)
        then false
        else (if not (is_any l.contract) && is_any r.contract then true else pair_less l r))
    else pair_less l r

-- A `case` of a contract, or the `default`.
pub record Case : Type 0 where
  pub label : Option Bytes
  pub handler : Bytes

-- `if (a == …) { switch (c) { … } }`, which an `else` joins to the next.
pub record Branch : Type 0 where
  pub action : Bytes
  pub cases : List Case

unfoldable pub case_of : Notify → Case
unfolding is_any
case_of wn = record {
  label = if not (is_any wn.contract) then some wn.contract else none;
  handler = wn.handler;
}

-- The loop over the notifications, from the branch that is open.
unfoldable pub branches : Bytes → List Case → List Notify → List Branch
branches action cases [] = record { action = action; cases = cases } ∷ []
branches action cases (wn ∷ wns) =
    let next = branches wn.name (case_of wn ∷ []) wns in
    let same = branches action (cases ++ case_of wn ∷ []) wns in
    if not (bytes_eq wn.name action) then record { action = action; cases = cases } ∷ next else same

-- The first notification opens a branch, as its name is not the empty `action` that the loop starts with. For an
-- empty first name the source writes a `case` outside every `switch`, which is no C++ program and has no `apply`.
unfoldable pub notify_branches : List Notify → List Branch
notify_branches [] = []
notify_branches (wn ∷ wns) = branches wn.name (case_of wn ∷ []) wns

-- The body of `apply`.
pub record Program : Type 0 where
  pub actions : List Action
  pub notifies : List Branch

unfoldable pub generate_eosio_dispatch : List Action → List Notify → Program
generate_eosio_dispatch wasm_actions wasm_notifies = record {
  actions = wasm_actions;
  notifies = notify_branches wasm_notifies;
}

-- What `apply` does: the call of a handler, a failed assertion, or nothing.
pub data Outcome : Type 0 where
  calls : Bytes → Outcome
  refuses nothing : Outcome

abbrev pub called : Option Bytes → Outcome
called none = nothing
called (some h) = calls h

module _ (value : Bytes → ℕ) where
  abbrev pub matching : List Case → ℕ → Option Bytes
  matching [] c = none
  matching (k ∷ ks) c =
      let rest = matching ks c in
      elim k.label [ none ↦ rest | some n ↦ if value n == c then some k.handler else rest ]

  abbrev pub default_of : List Case → Option Bytes
  default_of [] = none
  default_of (k ∷ ks) = elim k.label [ none ↦ some k.handler | some n ↦ default_of ks ]

  abbrev pub or_else : Option Bytes → Option Bytes → Option Bytes
  or_else none o = o
  or_else (some h) o = some h

  -- A `switch` goes to the case of the value, and to the default where there is none.
  unfoldable pub switch : List Case → ℕ → Option Bytes
  switch ks c = or_else (matching ks c) (default_of ks)

  unfoldable pub run_branches : List Branch → ℕ → ℕ → Option Bytes
  run_branches [] a c = none
  run_branches (b ∷ bs) a c =
      let rest = run_branches bs a c in if value b.action == a then switch b.cases c else rest

  unfoldable pub run_actions : List Action → ℕ → Option Bytes
  run_actions [] a = none
  run_actions (x ∷ xs) a =
      let rest = run_actions xs a in if value x.name == a then some x.handler else rest

  -- The switch over the actions, whose default asserts unless the receiver is `eosio`.
  unfoldable pub own_action : List Action → ℕ → ℕ → Outcome
  unfolding run_actions
  own_action [] r a = nothing
  own_action (x ∷ xs) r a = elim (run_actions (x ∷ xs) a) [
    | some h ↦ calls h
    | none ↦ if not (r == value (101 ∷ 111 ∷ 115 ∷ 105 ∷ 111 ∷ [])) then refuses else nothing
  ]

  -- `apply( r, c, a )`
  unfoldable pub apply : Program → ℕ → ℕ → ℕ → Outcome
  apply p r c a = if c == r then own_action p.actions r a else called (run_branches p.notifies a c)
