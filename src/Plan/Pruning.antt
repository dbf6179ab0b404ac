-- ===== src/Plan/Pruning.antt =====
-- A list call over all namespaces and the deletions after it, against the plan.
use cicd_tools.Prelude.{
  Bool, ◌≡◌, refl, sym, ap, ◌∙◌, subst, inl, inr, true, Option, none, some, List, [], ok, arith,
  Option-cases, Bool-cases,
}
use mathlib.Core.Option.{some-injective}
use cicd_tools.Types.{Key, ObjectMeta}
use cicd_tools.Cluster.{Api, everything}
use cicd_tools.Cluster.Laws.{IsStore, IsReliable, IsWritable, key_of}
use cicd_tools.Cleanup.{delete_where, delete_listed}
use cicd_tools.Cleanup.Missing.{delete_where-none}
use cicd_tools.Shield
use cicd_tools.Removal
use cicd_tools.Plan.{pruned}

module _ {W R X : Type 0} {api : Api W R} {meta : R → ObjectMeta} {at : W → Key → Option R}
    {rest : W → X} (L : IsStore api meta at rest) where
  -- What stands under a key has that key.
  pub key-stored :
      IsWritable api meta at → (w : W) (k : Key) (x : R) → at w k ≡ some x → key_of (meta x) ≡ k
  key-stored D w k x there = elim (D.get_ok k w) [
    | inl (y, found) ↦
        let (stored, same) = L.get_found k w y found in
        ap (λ z. key_of (meta z)) (some-injective _ _ (sym there ∙ stored)) ∙ same
    | inr (e, failed, missing) ↦ absurd (ground (arith, L.get_missing k w e failed missing))
  ]

  pub namespace-stored :
      IsWritable api meta at
      → (w : W) (k : Key) (x : R) → at w k ≡ some x
      → (meta x).namespace ≡ k.namespace
  namespace-stored D w k x there = ap (λ j. j.namespace) (key-stored D w k x there)

  module _ (D : IsReliable api meta at) (E : IsWritable api meta at) (doomed : R → Bool) (w : W)
      (items : List R) (listed : (api.list everything w).0 ≡ ok items) where
    pub pruned-at :
        (k : Key)
        → ((x : R) → at w k ≡ some x → doomed x ≡ true → (meta x).finalizers ≡ [])
        → at (delete_where api doomed items (api.list everything w).1) k ≡ pruned doomed (at w k)
    unfolding pruned delete_listed
    pruned-at k free = elim (Option-cases (at w k)) [
      | inl gone ↦
          rw gone
            (delete_where-none L D k doomed items _ (ap (λ f. f k) (L.list_at everything w) ∙ gone))
      | inr (x, there) ↦
          let same = key-stored E w k x there in
          let stored : at w (key_of (meta x)) ≡ some x = ap (at w) same ∙ there in
          elim (Bool-cases (doomed x)) [
            | inl hit ↦
                rw (there, hit)
                  (subst
                    (λ j. at (delete_where api doomed items (api.list everything w).1) j ≡ none)
                    same
                    (Removal.listed-removes L D x (free x there hit) doomed everything w items
                      listed hit refl (inl stored)))
            | inr miss ↦
                rw (there, miss)
                  (subst
                    (λ j. at (delete_where api doomed items (api.list everything w).1) j ≡ some x)
                    same
                    (rw listed at (
                      Shield.delete_listed-Stored L x doomed everything
                        (λ y _ hit e. cc (hit, miss, ap doomed e)) w stored)))
          ]
    ]
