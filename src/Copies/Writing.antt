-- ===== src/Copies/Writing.antt =====
-- The write of a copy while the calls succeed, and the keys that it leaves alone.
use cicd_tools.Prelude.{
  ◌≡◌, refl, sym, ap, ◌∙◌, ◌≢◌, inl, inr, Bool-cases, Reason-cases, ok, err, Result, Error,
  not_found,
}
use cicd_tools.Prelude.{Option}
use cicd_tools.Types.{Key, ObjectMeta}
use cicd_tools.Cluster.{Api}
use cicd_tools.Cluster.Laws.{IsStore, IsWritable, key_of}
use cicd_tools.Labels.{is_synced}
use cicd_tools.Copies.{write_found, write_copy}

module _ {W R X : Type 0} {api : Api W R} {meta : R → ObjectMeta} {at : W → Key → Option R}
    {rest : W → X} (L : IsStore api meta at rest) (target : R) (overwrite : R → R)
    (keeps_key : (x : R) → key_of (meta (overwrite x)) ≡ key_of (meta x)) where
  abbrev key : Key
  key = key_of (meta target)

  pub write_copy-ok :
      IsWritable api meta at → (w : W) → (write_copy api meta target overwrite w).0 ≡ ok tt
  unfolding write_copy
  write_copy-ok D w = elim (D.get_ok key w) [
    | inl (x, p) ↦ rw p (found x p)
    | inr (e, p, q) ↦ rw p (missing e p q)
  ]
    where
      missing :
          (e : Error)
          → (api.get key w).0 ≡ err e
          → e.reason ≡ not_found
          → (write_found api meta target overwrite (err e) (api.get key w).1).0 ≡ ok tt
      missing e p q =
          rw (q, write_found)
            (D.create_ok target (api.get key w).1
              (ap (λ f. f key) (L.get_at key w) ∙ L.get_missing key w e p q))

      found :
          (x : R)
          → (api.get key w).0 ≡ ok x
          → (write_found api meta target overwrite (ok x) (api.get key w).1).0 ≡ ok tt
      found x p = elim (Bool-cases (is_synced (meta x).labels)) [
        | inl q ↦
            rw (q, write_found)
              (let (stored, at_key) = L.get_found key w x p in
                D.update_ok (overwrite x) x (api.get key w).1 (
                  ap (at (api.get key w).1) (keeps_key x ∙ at_key)
                  ∙ ap (λ f. f key) (L.get_at key w)
                  ∙ stored))
        | inr q ↦ rw (q, write_found) refl
      ]

  pub write_copy-other :
      (k : Key) → key ≢ k → (w : W) → at (write_copy api meta target overwrite w).1 k ≡ at w k
  unfolding write_copy
  write_copy-other k apart w = go (api.get key w).0 refl ∙ ap (λ f. f k) (L.get_at key w)
    where
      go :
          (found : Result R)
          → (api.get key w).0 ≡ found
          → at (write_found api meta target overwrite found (api.get key w).1).1 k
            ≡ at (api.get key w).1 k
      go (err e) p = elim (Reason-cases e.reason) [
        | inl q ↦ rw (q, write_found) (L.create_other target _ k apart)
        | inr q ↦ rw (q, write_found) refl
      ]
      go (ok x) p = elim (Bool-cases (is_synced (meta x).labels)) [
        | inl q ↦
            rw (q, write_found)
              (L.update_other (overwrite x) _ k
                (λ same. apart (sym (keeps_key x ∙ (L.get_found key w x p).1) ∙ same)))
        | inr q ↦ rw (q, write_found) refl
      ]
