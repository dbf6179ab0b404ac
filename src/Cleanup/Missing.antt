-- ===== src/Cleanup/Missing.antt =====
-- The deletions and the keys under which nothing is stored.
use cicd_tools.Prelude.{
  ◌≡◌, ap, ◌∙◌, subst, ◌⊎◌, ◌≢◌, inl, inr, Bool, Option, none, List, [], ◌∷◌, arith, eq_iff,
  Bool-cases,
}
use cicd_tools.Types.{Key, ObjectMeta}
use cicd_tools.Cluster.{Api}
use cicd_tools.Cluster.Laws.{IsStore, IsReliable, key_of}
use cicd_tools.Cleanup.{delete_where}

pub Key-cases : (a b : Key) → (a ≡ b) ⊎ (a ≢ b)
Key-cases a b = ground (arith, eq_iff a.namespace b.namespace, eq_iff a.name b.name)

module _ {W R X : Type 0} {api : Api W R} {meta : R → ObjectMeta} {at : W → Key → Option R}
    {rest : W → X} (L : IsStore api meta at rest) (D : IsReliable api meta at) (k : Key) where
  pub delete-none : (x : R) (w : W) → at w k ≡ none → at (api.delete x w).1 k ≡ none
  delete-none x w gone = elim (Key-cases (key_of (meta x)) k) [
    | inl same ↦
        subst (λ j. at (api.delete x w).1 j ≡ none) same
          (D.delete_missing x w (ap (at w) same ∙ gone))
    | inr apart ↦ L.delete_other x w k apart ∙ gone
  ]

  pub delete_where-none :
      (doomed : R → Bool) (items : List R) (w : W)
      → at w k ≡ none
      → at (delete_where api doomed items w) k ≡ none
  unfolding delete_where
  delete_where-none doomed [] w gone = gone
  delete_where-none doomed (x ∷ items) w gone = elim (Bool-cases (doomed x)) [
    | inl hit ↦ rw hit (delete_where-none doomed items _ (delete-none x w gone))
    | inr miss ↦ rw miss (delete_where-none doomed items w gone)
  ]
