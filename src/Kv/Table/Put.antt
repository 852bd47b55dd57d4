-- ===== src/Kv/Table/Put.antt =====
-- `table_base::put` of kv.hpp on a consistent table: it stores the row in place of the one with its
-- primary key, keeps every index in step, and fails exactly on a secondary key that another row has.
use taurus_cdt.Prelude.{
  ℕ, zero, suc, ◌≡◌, ◌≢◌, refl, sym, ap, ◌∙◌, subst, List, [], ◌∷◌, Option, none, some, true,
  Result, ok, err, ◌>>=◌, Bool-cases, inl, inr, All, get_elem?,
}
use taurus_cdt.Kv.Keys.{Bytes, full_key, bytes_eq, bytes_eq→eq, bytes_eq_refl}
use taurus_cdt.Kv.Host.{KvHost}
use taurus_cdt.Kv.Table.{
  Index, Schema, Lawful, Failure, make_prefix, index_key, put_index, put_indices,
}
use taurus_cdt.Kv.Table.Rows.{Synced, Apart, AllApart, index_key-name, get-set_ne, get-erase_ne}
use taurus_cdt.Kv.Table.PutIndex.{Replaced, pk_of, new_Synced, present_Synced, moved_Synced}

module _ {V : Type 0} (t : Schema V) (host : KvHost) (law : Lawful t) (R : V → Type 0)
    (unique : (v w : V) → R v → R w → t.primary.key v ≡ t.primary.key w → v ≡ w) (v : V) where
  open host use {Store, kv_get, kv_set, kv_erase}

  -- What `put` knows of the row that it replaces.
  abbrev pub Old : Option V → Type 0
  Old none = (u : V) → R u → t.primary.key u ≢ t.primary.key v
  Old (some o) = R o × (t.primary.key o ≡ t.primary.key v)

  abbrev pub New : Store → Index V → Type 0
  New = Synced t host (Replaced t host law R unique v)

  abbrev pub row : Bytes
  row = index_key t t.primary v

  -- Nothing under another index's prefix has changed.
  abbrev Elsewhere : Index V → Store → Store → Type 0
  Elsewhere i s s' =
      (j : Index V) (k : Bytes)
      → i.name ≢ j.name
      → kv_get s' (full_key (make_prefix t j.name) k) ≡ kv_get s (full_key (make_prefix t j.name) k)

  pub other_slot :
      (i j : Index V) (k l : Bytes)
      → i.name ≢ j.name
      → full_key (make_prefix t i.name) k ≢ full_key (make_prefix t j.name) l
  other_slot i j k l n e = n (index_key-name t host law i j k l e).0

  set-Elsewhere :
      (i : Index V) (w : V) (s : Store) (x : Bytes) → Elsewhere i s (kv_set s (index_key t i w) x)
  unfolding index_key
  set-Elsewhere i w s x j k n = get-set_ne t host s _ x _ (other_slot i j (i.key w) k n)

  erase-Elsewhere : (i : Index V) (w : V) (s : Store) → Elsewhere i s (kv_erase s (index_key t i w))
  unfolding index_key
  erase-Elsewhere i w s j k n = get-erase_ne t host s _ _ (other_slot i j (i.key w) k n)

  Step : Store → Index V → Result Failure Store → Type 0
  Step s i (ok s') = New s' i × Elsewhere i s s'
  Step s i (err e) = (u : V) × R u × (i.key u ≡ i.key v) × (t.primary.key u ≢ t.primary.key v)

  reach :
      (found : Bytes) (u : V)
      → found ≡ index_key t t.primary u
      → t.primary.key u ≡ t.primary.key v
      → bytes_eq found row ≡ true
  unfolding index_key
  reach found u q a =
      subst (λ x. bytes_eq found x ≡ true) (q ∙ ap (full_key (make_prefix t t.primary.name)) a)
        (bytes_eq_refl found)

  put_index-Step :
      (s : Store) (i : Index V) (old : Option V) (found : Option Bytes)
      → Synced t host R s i
      → Old old
      → kv_get s (index_key t i v) ≡ found
      → Step s i (put_index t host s row old v i found)
  unfolding put_index Step
  put_index-Step s i none none sync o e =
      (new_Synced t host law R unique v s i sync o e, set-Elsewhere i v s row)
  put_index-Step s i none (some found) sync o e =
      let (u, r, p, q) = sync.sound (i.key v) found (unfold index_key in e) in (u, r, p, o u r)
  put_index-Step s i (some old) none sync (r, same) e = (
    moved_Synced t host law R unique v s i sync old r same e,
    λ j k n.
        set-Elsewhere i v (kv_erase s (index_key t i old)) row j k n
        ∙ erase-Elsewhere i old s j k n,
  )
  put_index-Step s i (some old) (some found) sync (r, same) e =
      elim (Bool-cases (bytes_eq found row)) [
        | inl b ↦ rw b (
          present_Synced t host law R unique v s i sync old r same found e
              (bytes_eq→eq found row b),
          λ j k n. refl,
        )
        | inr b ↦
            let (u, w, p, q) = sync.sound (i.key v) found (unfold index_key in e) in
            rw b (u, w, p, λ a. cc (b, reach found u q a))
      ]

  -- Another row has the key of the new one, in one of the indices.
  abbrev pub Clash : List (Index V) → Type 0
  Clash is =
      (k : ℕ) × (i : Index V) × (u : V) × (get_elem? is k ≡ some i)
      × R u
      × (i.key u ≡ i.key v)
      × (t.primary.key u ≢ t.primary.key v)

  -- Nothing changes but under the prefixes of the listed indices.
  abbrev pub Beyond : List (Index V) → Store → Store → Type 0
  Beyond is s s' =
      (j : Index V) (k : Bytes)
      → All (λ i. i.name ≢ j.name) is
      → kv_get s' (full_key (make_prefix t j.name) k) ≡ kv_get s (full_key (make_prefix t j.name) k)

  abbrev pub Loop : Store → List (Index V) → Result Failure Store → Type 0
  Loop s is (ok s') = All (New s') is × Beyond is s s'
  Loop s is (err e) = Clash is

  -- An index that an operation elsewhere did not touch.
  pub Synced-elsewhere :
      (P : V → Type 0) (s s' : Store) (j : Index V)
      → ((k : Bytes)
          → kv_get s' (full_key (make_prefix t j.name) k)
            ≡ kv_get s (full_key (make_prefix t j.name) k))
      → Synced t host P s j
      → Synced t host P s' j
  unfolding index_key
  Synced-elsewhere P s s' j e sync = record {
    leads = λ u r. e (j.key u) ∙ sync.leads u r;
    sound = λ k bytes g. sync.sound k bytes (sym (e k) ∙ g);
  }

  All-Elsewhere :
      (s s' : Store) (i : Index V) (is : List (Index V))
      → Elsewhere i s s'
      → Apart i is
      → All (Synced t host R s) is
      → All (Synced t host R s') is
  All-Elsewhere s s' i [] e a h = tt
  All-Elsewhere s s' i (j ∷ is) e (a, aa) (h, hs) =
      (Synced-elsewhere R s s' j (λ k. e j k a) h, All-Elsewhere s s' i is e aa hs)

  names-Apart : (i : Index V) (is : List (Index V)) → Apart i is → All (λ j. j.name ≢ i.name) is
  names-Apart i [] a = tt
  names-Apart i (j ∷ is) (a, aa) = ((λ p. a (sym p)), names-Apart i is aa)

  extend-Loop :
      (s s' : Store) (i : Index V) (is : List (Index V)) (r : Result Failure Store)
      → New s' i
      → Elsewhere i s s'
      → Apart i is
      → Loop s' is r
      → Loop s (i ∷ is) r
  extend-Loop s s' i is (ok s'') n e a (h, b) = (
    (
      Synced-elsewhere (Replaced t host law R unique v) s' s'' i (λ k. b i k (names-Apart i is a))
          n,
      h,
    ),
    λ j k d. b j k d.1 ∙ e j k d.0,
  )
  extend-Loop s s' i is (err x) n e a (k, j, u, g, r, p, d) = (suc k, j, u, g, r, p, d)

  join-Loop :
      (s : Store) (old : Option V) (i : Index V) (is : List (Index V)) (r : Result Failure Store)
      → Step s i r
      → Apart i is
      → All (Synced t host R s) is
      → ((s' : Store)
          → All (Synced t host R s') is
          → Loop s' is (put_indices t host s' row old v is))
      → Loop s (i ∷ is) (r >>= λ s'. put_indices t host s' row old v is)
  unfolding Step
  join-Loop s old i is (ok s') (n, e) a hs rec =
      extend-Loop s s' i is (put_indices t host s' row old v is) n e a
        (rec s' (All-Elsewhere s s' i is e a hs))
  join-Loop s old i is (err x) (u, r, p, n) a hs rec = (0, i, u, refl, r, p, n)

  pub put_indices-Loop :
      (old : Option V) (is : List (Index V)) (s : Store)
      → Old old
      → AllApart is
      → All (Synced t host R s) is
      → Loop s is (put_indices t host s row old v is)
  unfolding put_indices
  put_indices-Loop old [] s o a h = (tt, λ j k n. refl)
  put_indices-Loop old (i ∷ is) s o (a, aa) (h, hs) =
      join-Loop s old i is (put_index t host s row old v i (kv_get s (index_key t i v)))
        (put_index-Step s i old _ h o refl) a hs (λ s' hs'. put_indices-Loop old is s' o aa hs')

  one_slot :
      (s' : Store) (j : Index V) (u : V)
      → j.key u ≡ j.key v
      → New s' j
      → t.primary.key u ≢ t.primary.key v
      → R u
      → index_key t t.primary u ≡ index_key t t.primary v
  unfolding index_key
  one_slot s' j u q n d r =
      let a =
        subst (λ x. kv_get s' (full_key (make_prefix t j.name) x) ≡ some (index_key t t.primary u))
          q (n.leads u (inr (r, d))) in
      let b = n.leads v (inl refl) in cc (a, b)

  -- Where the indices agree with the new rows, no other row clashed with the new one.
  pub no-Clash : (s' : Store) (is : List (Index V)) → All (New s') is → ¬ Clash is
  no-Clash s' [] h (k, i, u, g, r, p, d) = cc
  no-Clash s' (j ∷ is) (n, h) (zero, i, u, g, r, p, d) =
      let e : j ≡ i = cc in
      let q : j.key u ≡ j.key v = subst (λ x. x.key u ≡ x.key v) (sym e) p in
      d (pk_of t host law R unique v u v (one_slot s' j u q n d r))
  no-Clash s' (j ∷ is) (n, h) (suc k, i, u, g, r, p, d) = no-Clash s' is h (k, i, u, g, r, p, d)
