-- ===== src/MultiIndex/Rounds.antt =====
-- The loops over the secondary indices in libraries/eosiolib/contracts/eosio/multi_index.hpp: what each round
-- does at its own index holds of all of them after the loop.
use taurus_cdt.Prelude.{
  ℕ, zero, suc, ◌+◌, ◌<◌, ◌≡◌, ◌≢◌, refl, ◌∙◌, subst, List, [], ◌∷◌, Option, some, get_elem?, arith,
  Result, ok,
}
use taurus_cdt.MultiIndex.Host.{DbHost}
use taurus_cdt.MultiIndex.{Schema, Failure, Indexed, for_each}

module _ {V Key : Type 0} (t : Schema V Key) (host : DbHost Key) (k : ℕ) where
  open host use {Store, lookup, sec}

  -- The rows and the entries of other keys stay, and so does what `Kept` says of the indices.
  pub record Frame (Kept : ℕ → Type 0) (x y : Indexed t host) : Type 0 where
    pub rows : (j : ℕ) → lookup y.1 j ≡ lookup x.1 j
    pub others : (m j : ℕ) → j ≢ k → sec y.1 m j ≡ sec x.1 m j
    pub kept_entry : (m : ℕ) → Kept m → sec y.1 m k ≡ sec x.1 m k
    pub kept_iter : (m : ℕ) → Kept m → y.0 m ≡ x.0 m

  abbrev pub Claim : Type 1
  Claim = (V → Key) → Option ℕ → Option (ℕ × Key) → Type 0

  -- What a claim says at the index of number n.
  abbrev pub At : Claim → ℕ → (V → Key) → Indexed t host → Type 0
  At P n e x = P e (x.0 n) (sec x.1 n k)

  pub record Stepped (Post : Claim) (n : ℕ) (e : V → Key) (x : Indexed t host)
      (r : Result Failure (Indexed t host)) : Type 0 where
    pub after : Indexed t host
    pub returns : r ≡ ok after
    pub done : At Post n e after
    pub frame : Frame (λ m. m ≢ n) x after

  pub record Looped (Post : Claim) (n : ℕ) (es : List (V → Key)) (x : Indexed t host)
      (r : Result Failure (Indexed t host)) : Type 0 where
    pub after : Indexed t host
    pub returns : r ≡ ok after
    pub done : (i : ℕ) (e : V → Key) → get_elem? es i ≡ some e → At Post (n + i) e after
    pub frame : Frame (λ m. m < n) x after

  At-Frame :
      (P : Claim) (Kept : ℕ → Type 0) (n : ℕ) (e : V → Key) (x y : Indexed t host)
      → Frame Kept x y
      → Kept n
      → At P n e x
      → At P n e y
  At-Frame P Kept n e x y f h p = rw (f.kept_entry n h, f.kept_iter n h) p

  Frame-trans :
      (n : ℕ) (x y z : Indexed t host)
      → Frame (λ m. m ≢ n) x y
      → Frame (λ m. m < suc n) y z
      → Frame (λ m. m < n) x z
  Frame-trans n x y z f g = record {
    rows = λ j. g.rows j ∙ f.rows j;
    others = λ m j d. g.others m j d ∙ f.others m j d;
    kept_entry =
        λ m h. g.kept_entry m (omega (arith, h)) ∙ f.kept_entry m (λ e. omega (arith, h, e));
    kept_iter = λ m h. g.kept_iter m (omega (arith, h)) ∙ f.kept_iter m (λ e. omega (arith, h, e));
  }

  At-shift :
      (P : Claim) (m n : ℕ) (e : V → Key) (x : Indexed t host) → m ≡ n → At P m e x → At P n e x
  At-shift P m n e x q h = subst (λ i. At P i e x) q h

  module _ (step : ℕ → (V → Key) → Indexed t host → Result Failure (Indexed t host))
      (Pre Post : Claim)
      (steps : (n : ℕ) (e : V → Key) (x : Indexed t host)
        → At Pre n e x
        → Stepped Post n e x (step n e x)) where
    for_each-done :
        (n : ℕ) (e : V → Key) (es : List (V → Key)) (y z : Indexed t host)
        → At Post n e y
        → Frame (λ m. m < suc n) y z
        → ((i : ℕ) (f : V → Key) → get_elem? es i ≡ some f → At Post (suc n + i) f z)
        → (i : ℕ) (f : V → Key) → get_elem? (e ∷ es) i ≡ some f
        → At Post (n + i) f z
    for_each-done n e es y z p f d zero g q =
        let c : e ≡ g = cc in
        At-shift Post n (n + 0) g z (omega arith)
          (At-Frame Post (λ m. m < suc n) n g y z f (omega arith) (subst (λ g. At Post n g y) c p))
    for_each-done n e es y z p f d (suc i) g q =
        At-shift Post (suc n + i) (n + suc i) g z (omega arith) (d i g q)

    pub for_each-Looped :
        (n : ℕ) (es : List (V → Key)) (x : Indexed t host)
        → ((i : ℕ) (e : V → Key) → get_elem? es i ≡ some e → At Pre (n + i) e x)
        → Looped Post n es x (for_each t host step n es x)
    unfolding for_each
    for_each-Looped n [] x h = record {
      after = x;
      returns = refl;
      done = λ i e q. cc;
      frame = record {
        rows = λ j. refl;
        others = λ m j d. refl;
        kept_entry = λ m d. refl;
        kept_iter = λ m d. refl;
      };
    }
    for_each-Looped n (e ∷ es) x h =
        let s = steps n e x (At-shift Pre (n + 0) n e x (omega arith) (h 0 e refl)) in
        let l = for_each-Looped (suc n) es s.after (λ i f q.
          At-Frame Pre (λ m. m ≢ n) (suc n + i) f x s.after s.frame (λ c. omega (arith, c))
            (At-shift Pre (n + suc i) (suc n + i) f x (omega arith) (h (suc i) f q))) in
        record {
          after = l.after;
          returns = rw s.returns l.returns;
          done = for_each-done n e es s.after l.after s.done l.frame l.done;
          frame = Frame-trans n x s.after l.after s.frame l.frame;
        }
