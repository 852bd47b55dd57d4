-- ===== src/Kv/Table/PutIndex.antt =====
-- One index under `table_base::put` of kv.hpp: if it agreed with the old rows, it agrees with the
-- new ones, and nothing outside the index changes.
use taurus_cdt.Prelude.{◌≡◌, ◌≢◌, refl, sym, ap, ◌∙◌, subst, none, some, inl, inr, ◌⊎◌}
use taurus_cdt.Kv.Keys.{Bytes, full_key}
use taurus_cdt.Kv.Host.{KvHost}
use taurus_cdt.Kv.Table.{Index, Schema, Lawful, make_prefix, index_key}
use taurus_cdt.Kv.Table.Rows.{
  Synced, index_key-name, get-set_self, get-set_ne, get-erase_self, get-erase_ne, bytes_dec,
}

module _ {V : Type 0} (t : Schema V) (host : KvHost) (law : Lawful t) (R : V → Type 0)
    (unique : (v w : V) → R v → R w → t.primary.key v ≡ t.primary.key w → v ≡ w) (v : V) where
  open host use {Store, kv_get, kv_set, kv_erase}

  -- The rows after the call.
  abbrev pub Replaced : V → Type 0
  Replaced u = (u ≡ v) ⊎ (R u × (t.primary.key u ≢ t.primary.key v))

  pub pk_of :
      (u w : V)
      → index_key t t.primary u ≡ index_key t t.primary w
      → t.primary.key u ≡ t.primary.key w
  unfolding index_key
  pk_of u w e = (index_key-name t host law t.primary t.primary _ _ e).1

  module _ (s : Store) (i : Index V) (sync : Synced t host R s i) where
    abbrev pub slot : Bytes → Bytes
    slot k = full_key (make_prefix t i.name) k

    slot_ne : (k l : Bytes) → k ≢ l → slot k ≢ slot l
    slot_ne k l n e = n (index_key-name t host law i i k l e).1

    abbrev pub row_key : Bytes
    row_key = index_key t t.primary v

    pub new_Synced :
        ((u : V) → R u → t.primary.key u ≢ t.primary.key v)
        → kv_get s (index_key t i v) ≡ none
        → Synced t host Replaced (kv_set s (index_key t i v) row_key) i
    unfolding index_key
    new_Synced fresh e = record {
      leads = λ u. elim [
        | inl p ↦ rw p (get-set_self t host s (slot (i.key v)) (index_key t t.primary v))
        | inr (r, n) ↦
            let ne : i.key v ≢ i.key u = (λ (p : i.key v ≡ i.key u).
              cc (subst (λ k. kv_get s (slot k) ≡ none) p e, sync.leads u r)) in
            get-set_ne t host s (slot (i.key v)) row_key (slot (i.key u)) (slot_ne _ _ ne)
            ∙ sync.leads u r
      ];
      sound = λ k bytes g. elim (bytes_dec (i.key v) k) [
        | inl p ↦
            let h =
              subst (λ x. kv_get (kv_set s (slot (i.key v)) row_key) (slot x) ≡ some bytes) (sym p)
                g in
            (
              v,
              inl refl,
              p,
              cc (h, get-set_self t host s (slot (i.key v)) (index_key t t.primary v)),
            )
        | inr n ↦
            let h =
              sym (get-set_ne t host s (slot (i.key v)) row_key (slot k) (slot_ne _ _ n)) ∙ g in
            let (u, r, p, q) = sync.sound k bytes h in (u, inr (r, fresh u r), p, q)
      ];
    }

    -- The row that is replaced.
    module _ (old : V) (r₀ : R old) (same : t.primary.key old ≡ t.primary.key v) where
      -- The index already leads to the row: its key has not changed.
      pub present_Synced :
          (found : Bytes)
          → kv_get s (index_key t i v) ≡ some found
          → found ≡ row_key
          → Synced t host Replaced s i
      unfolding index_key
      present_Synced found e f =
          let (w, r, p, q) = sync.sound (i.key v) found e in
          let o = unique w old r r₀ (pk_of w v (sym q ∙ f) ∙ sym same) in
          let key_eq : i.key old ≡ i.key v = ap i.key (sym o) ∙ p in
          record {
            leads = λ u. elim [ inl p ↦ rw p (e ∙ ap some f) | inr (r, n) ↦ sync.leads u r ];
            sound = λ k bytes g.
                let (u, r, p, q) = sync.sound k bytes g in
                elim (bytes_dec (t.primary.key u) (t.primary.key v)) [
                  | inl a ↦
                      let b = unique u old r r₀ (a ∙ sym same) in
                      (
                        v,
                        inl refl,
                        sym key_eq ∙ sym (ap i.key b) ∙ p,
                        q ∙ ap (full_key (make_prefix t t.primary.name)) a,
                      )
                  | inr n ↦ (u, inr (r, n), p, q)
                ];
          }

      -- The key has changed: the old entry goes, and a new one is written.
      pub moved_Synced :
          kv_get s (index_key t i v) ≡ none
          → Synced t host Replaced
              (kv_set (kv_erase s (index_key t i old)) (index_key t i v) row_key)
              i
      unfolding index_key
      moved_Synced e =
          let s₁ = kv_erase s (slot (i.key old)) in
          record {
            leads = λ u. elim [
              | inl p ↦ rw p (get-set_self t host s₁ (slot (i.key v)) row_key)
              | inr (r, n) ↦
                  let ne : i.key v ≢ i.key u = (λ (p : i.key v ≡ i.key u).
                    cc (subst (λ k. kv_get s (slot k) ≡ none) p e, sync.leads u r)) in
                  let ne' : i.key old ≢ i.key u = (λ (p : i.key old ≡ i.key u).
                    let a =
                      subst (λ k. kv_get s (slot k) ≡ some (index_key t t.primary old)) p
                        (sync.leads old r₀) in
                    let b : index_key t t.primary u ≡ index_key t t.primary old =
                      cc (a, sync.leads u r) in
                    n (pk_of u old b ∙ same)) in
                  get-set_ne t host s₁ (slot (i.key v)) row_key (slot (i.key u)) (slot_ne _ _ ne)
                  ∙ get-erase_ne t host s (slot (i.key old)) (slot (i.key u)) (slot_ne _ _ ne')
                  ∙ sync.leads u r
            ];
            sound = λ k bytes g. elim (bytes_dec (i.key v) k) [
              | inl p ↦
                  let h =
                    subst (λ x. kv_get (kv_set s₁ (slot (i.key v)) row_key) (slot x) ≡ some bytes)
                      (sym p) g in
                  (v, inl refl, p, cc (h, get-set_self t host s₁ (slot (i.key v)) row_key))
              | inr n ↦
                  let h =
                    sym (get-set_ne t host s₁ (slot (i.key v)) row_key (slot k) (slot_ne _ _ n))
                    ∙ g in
                  elim (bytes_dec (i.key old) k) [
                    | inl p ↦ cc (
                      subst (λ x. kv_get s₁ (slot x) ≡ some bytes) (sym p) h,
                      get-erase_self t host s (slot (i.key old)),
                    )
                    | inr m ↦
                        let h' =
                          sym (get-erase_ne t host s (slot (i.key old)) (slot k) (slot_ne _ _ m))
                          ∙ h in
                        let (u, r, p, q) = sync.sound k bytes h' in
                        let d : t.primary.key u ≢ t.primary.key v =
                          (λ (a : t.primary.key u ≡ t.primary.key v).
                            m (ap i.key (sym (unique u old r r₀ (a ∙ sym same))) ∙ p)) in
                        (u, inr (r, d), p, q)
                  ]
            ];
          }
