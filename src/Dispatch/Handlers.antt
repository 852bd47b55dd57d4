-- ===== src/Dispatch/Handlers.antt =====
-- Which handler the dispatcher of tools/src/eosio-codegen.cpp calls.
use taurus_cdt.Prelude.{
  ℕ, ◌≡◌, ◌≢◌, refl, sym, ap, ◌∙◌, subst, List, [], ◌∷◌, ◌++◌, map, true, false, not, ◌&&◌, ◌==◌,
  if◌then◌else◌, Option, none, some, Bool-cases, inl, inr, All, All-append, ==_iff, ne→==-false,
}
use mathlib.Core.List.{append_assoc}
use taurus_cdt.Kv.Keys.{Bytes, bytes_eq, bytes_eq→eq, bytes_eq_refl}
use taurus_cdt.Kv.ListHost.{bytes_leb, leb_refl, leb_antisym, leb_trans, leb_total}
use taurus_cdt.Dispatch.{
  Action, Notify, is_any, string_less, pair_less, less, case_of, branches, notify_branches,
  generate_eosio_dispatch, called, matching, default_of, or_else, switch, run_branches, apply,
}

-- A set of notifications is the list of them in its order.
abbrev pub Sorted : List Notify → Type 0
Sorted [] = Unit
Sorted (x ∷ []) = Unit
Sorted (x ∷ y ∷ ws) = (less x y ≡ true) × Sorted (y ∷ ws)

less-leb : (x y : Notify) → less x y ≡ true → bytes_leb x.name y.name ≡ true
unfolding less pair_less string_less
less-leb x y e = elim (Bool-cases (bytes_leb x.name y.name)) [
  | inl p ↦ p
  | inr p ↦ elim (Bool-cases (bytes_eq x.name y.name)) [
    | inl q ↦ subst (λ n. bytes_leb x.name n ≡ true) (bytes_eq→eq x.name y.name q) (leb_refl x.name)
    | inr q ↦ (let u : false ≡ true = rw (q, p, leb_total x.name y.name p) at e in cc)
  ]
]

module _ (value : Bytes → ℕ) where
  -- The handler for an action of a contract: the one for that contract, or else the one for any contract.
  abbrev pub exact : List Notify → ℕ → ℕ → Option Bytes
  exact [] a c = none
  exact (w ∷ ws) a c =
      let rest = exact ws a c in
      if value w.name == a && (not (is_any w.contract) && value w.contract == c)
      then some w.handler
      else rest

  abbrev pub for_any : List Notify → ℕ → Option Bytes
  for_any [] a = none
  for_any (w ∷ ws) a =
      let rest = for_any ws a in
      if value w.name == a && is_any w.contract then some w.handler else rest

  abbrev pub handler_for : List Notify → ℕ → ℕ → Option Bytes
  handler_for ws a c = or_else value (exact ws a c) (for_any ws a)

  exact-append :
      (vs ws : List Notify) (a c : ℕ)
      → exact (vs ++ ws) a c ≡ or_else value (exact vs a c) (exact ws a c)
  exact-append [] ws a c = refl
  exact-append (v ∷ vs) ws a c =
      elim (Bool-cases (value v.name == a && (not (is_any v.contract) && value v.contract == c))) [
        | inl e ↦ rw e refl
        | inr e ↦ rw e (exact-append vs ws a c)
      ]

  for_any-append :
      (vs ws : List Notify) (a : ℕ)
      → for_any (vs ++ ws) a ≡ or_else value (for_any vs a) (for_any ws a)
  for_any-append [] ws a = refl
  for_any-append (v ∷ vs) ws a = elim (Bool-cases (value v.name == a && is_any v.contract)) [
    | inl e ↦ rw e refl
    | inr e ↦ rw e (for_any-append vs ws a)
  ]

  -- Notifications of other actions have no handler.
  abbrev Others : ℕ → List Notify → Type 0
  Others a ws = All (λ w. (value w.name == a) ≡ false) ws

  exact-Others : (ws : List Notify) (a c : ℕ) → Others a ws → exact ws a c ≡ none
  exact-Others [] a c h = refl
  exact-Others (w ∷ ws) a c (e, h) = rw e (exact-Others ws a c h)

  for_any-Others : (ws : List Notify) (a : ℕ) → Others a ws → for_any ws a ≡ none
  for_any-Others [] a h = refl
  for_any-Others (w ∷ ws) a (e, h) = rw e (for_any-Others ws a h)

  or_else-none : (o : Option Bytes) → or_else value o none ≡ o
  or_else-none none = refl
  or_else-none (some h) = refl

  handler_for-left :
      (vs ws : List Notify) (a c : ℕ)
      → Others a ws
      → handler_for (vs ++ ws) a c ≡ handler_for vs a c
  handler_for-left vs ws a c h =
      rw
        (
          exact-append vs ws a c,
          for_any-append vs ws a,
          exact-Others ws a c h,
          for_any-Others ws a h,
          or_else-none (exact vs a c),
          or_else-none (for_any vs a),
        )
        refl

  handler_for-right :
      (vs ws : List Notify) (a c : ℕ)
      → Others a vs
      → handler_for (vs ++ ws) a c ≡ handler_for ws a c
  handler_for-right vs ws a c h =
      rw
        (
          exact-append vs ws a c,
          for_any-append vs ws a,
          exact-Others vs a c h,
          for_any-Others vs a h,
        )
        refl

  abbrev Named : Bytes → List Notify → Type 0
  Named n vs = All (λ w. w.name ≡ n) vs

  matching-exact :
      (n : Bytes) (vs : List Notify) (a c : ℕ)
      → (value n == a) ≡ true
      → Named n vs
      → matching value (map case_of vs) c ≡ exact vs a c
  unfolding case_of
  matching-exact n [] a c e h = refl
  matching-exact n (v ∷ vs) a c e (q, h) =
      let e' : (value v.name == a) ≡ true = rw q e in
      let rest = matching-exact n vs a c e h in
      elim (Bool-cases (is_any v.contract)) [
        | inl p ↦ rw (e', p) rest
        | inr p ↦ rw (e', p, rest) refl
      ]

  default_of-for_any :
      (n : Bytes) (vs : List Notify) (a : ℕ)
      → (value n == a) ≡ true
      → Named n vs
      → default_of value (map case_of vs) ≡ for_any vs a
  unfolding case_of
  default_of-for_any n [] a e h = refl
  default_of-for_any n (v ∷ vs) a e (q, h) =
      let e' : (value v.name == a) ≡ true = rw q e in
      let rest = default_of-for_any n vs a e h in
      elim (Bool-cases (is_any v.contract)) [ inl p ↦ rw (e', p) refl | inr p ↦ rw (e', p) rest ]

  switch-handler_for :
      (n : Bytes) (vs : List Notify) (a c : ℕ)
      → (value n == a) ≡ true
      → Named n vs
      → switch value (map case_of vs) c ≡ handler_for vs a c
  unfolding switch
  switch-handler_for n vs a c e h =
      rw (matching-exact n vs a c e h, default_of-for_any n vs a e h) refl

  Others-Named :
      (n : Bytes) (vs : List Notify) (a : ℕ) → (value n == a) ≡ false → Named n vs → Others a vs
  Others-Named n [] a e h = tt
  Others-Named n (v ∷ vs) a e (q, h) = (rw q e, Others-Named n vs a e h)

  map_snoc :
      (vs : List Notify) (w : Notify)
      → map case_of (vs ++ w ∷ []) ≡ map case_of vs ++ case_of w ∷ []
  map_snoc [] w = refl
  map_snoc (v ∷ vs) w = ap (λ l. case_of v ∷ l) (map_snoc vs w)

  module _ (Valid : Bytes → Type 0)
      (inj : (x y : Bytes) → Valid x → Valid y → value x ≡ value y → x ≡ y) where
    -- The names are valid and in order, from one on.
    abbrev Ordered : Bytes → List Notify → Type 0
    Ordered n [] = Unit
    Ordered n (w ∷ ws) = (bytes_leb n w.name ≡ true) × Valid w.name × Ordered w.name ws

    Others-Ordered :
        (n m : Bytes) (ws : List Notify) (a : ℕ)
        → Valid n
        → (value n == a) ≡ true
        → bytes_leb n m ≡ true
        → n ≢ m
        → Ordered m ws
        → Others a ws
    Others-Ordered n m [] a v e l d h = tt
    Others-Ordered n m (w ∷ ws) a v e l d (k, u, h) =
        let l' = leb_trans n m w.name l k in
        let d' : n ≢ w.name =
          λ q. d (leb_antisym n m l (subst (λ x. bytes_leb m x ≡ true) (sym q) k)) in
        let f : value w.name ≢ a = λ q. d' (inj n w.name v u ((==_iff (value n) a).0 e ∙ sym q)) in
        (ne→==-false (value w.name) a f, Others-Ordered n w.name ws a v e l' d' h)

    branches-handler_for :
        (n : Bytes) (vs ws : List Notify) (a c : ℕ)
        → Valid n
        → Named n vs
        → Ordered n ws
        → run_branches value (branches n (map case_of vs) ws) a c ≡ handler_for (vs ++ ws) a c
    unfolding branches run_branches
    branches-handler_for n vs [] a c v h o = elim (Bool-cases (value n == a)) [
      | inl e ↦ rw e (switch-handler_for n vs a c e h ∙ sym (handler_for-left vs [] a c tt))
      | inr e ↦ rw e (sym (handler_for-right vs [] a c (Others-Named n vs a e h)))
    ]
    branches-handler_for n vs (w ∷ ws) a c v h (l, u, o) = elim (Bool-cases (bytes_eq w.name n)) [
      | inl q ↦
          (let z : w.name ≡ n = bytes_eq→eq w.name n q in
            let vs' = vs ++ w ∷ [] in
            let o' : Ordered n ws = subst (λ m. Ordered m ws) z o in
            let h' : Named n vs' = All-append (λ w. w.name ≡ n) vs (w ∷ []) h (z, tt) in
            rw (q, sym (map_snoc vs w))
              (branches-handler_for n vs' ws a c v h' o'
                ∙ ap (λ l. handler_for l a c) (append_assoc vs (w ∷ []) ws)))
      | inr q ↦ elim (Bool-cases (value n == a)) [
        | inl e ↦
            (let d : n ≢ w.name = λ i.
                let u : bytes_eq w.name n ≡ true =
                  subst (λ m. bytes_eq m n ≡ true) i (bytes_eq_refl n) in
                cc in
              let f : value w.name ≢ a =
                λ i. d (inj n w.name v u ((==_iff (value n) a).0 e ∙ sym i)) in
              let others : Others a (w ∷ ws) =
                (ne→==-false (value w.name) a f, Others-Ordered n w.name ws a v e l d o) in
              rw (q, e)
                (switch-handler_for n vs a c e h ∙ sym (handler_for-left vs (w ∷ ws) a c others)))
        | inr e ↦
            rw (q, e)
              (branches-handler_for w.name (w ∷ []) ws a c u (refl, tt) o
                ∙ sym (handler_for-right vs (w ∷ ws) a c (Others-Named n vs a e h)))
      ]
    ]

    Sorted-Ordered :
        (w : Notify) (ws : List Notify)
        → Sorted (w ∷ ws)
        → All (λ w. Valid w.name) ws
        → Ordered w.name ws
    Sorted-Ordered w [] s k = tt
    Sorted-Ordered w (x ∷ ws) (e, s) (v, k) = (less-leb w x e, v, Sorted-Ordered x ws s k)

    notify_branches-handler_for :
        (ws : List Notify) (a c : ℕ)
        → Sorted ws
        → All (λ w. Valid w.name) ws
        → run_branches value (notify_branches ws) a c ≡ handler_for ws a c
    unfolding notify_branches run_branches
    notify_branches-handler_for [] a c s k = refl
    notify_branches-handler_for (w ∷ ws) a c s (v, k) =
        branches-handler_for w.name (w ∷ []) ws a c v (refl, tt) (Sorted-Ordered w ws s k)

    -- The dispatcher of a sorted set of notifications, whose action names have values of their own, calls for an action of
    -- another contract the handler for that action of that contract, else the one for that action of any contract,
    -- and does nothing where there is neither.
    pub apply-handler_for :
        (xs : List Action) (ws : List Notify) (r c a : ℕ)
        → Sorted ws
        → All (λ w. Valid w.name) ws
        → c ≢ r
        → apply value (generate_eosio_dispatch xs ws) r c a ≡ called (handler_for ws a c)
    unfolding apply generate_eosio_dispatch
    apply-handler_for xs ws r c a s k n =
        rw (ne→==-false c r n) (ap called (notify_branches-handler_for ws a c s k))
