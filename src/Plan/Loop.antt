-- ===== src/Plan/Loop.antt =====
-- The loop over the target namespaces, against the plan.
use cicd_tools.Prelude.{
  String, ◌≡◌, refl, ◌∙◌, ◌≢◌, inl, inr, Option, List, [], ◌∷◌, In, arith, eq_iff, ◌==◌,
  if◌then◌else◌,
}
use cicd_tools.Types.{Key, ObjectMeta, ConfigSync}
use cicd_tools.Cluster.{Client}
use cicd_tools.Slices.{contains_string}
use cicd_tools.Reconcile.{Progress, sync_namespace, sync_namespaces}
use cicd_tools.Plan.{named, put_named, IsCopier}
use cicd_tools.Plan.Laws.{put_named_idem}

module _ {R : Type 0} {meta : R → ObjectMeta} {copy : R → String → R} {overwrite : R → R → R}
    (C : IsCopier meta copy overwrite) (c : Client) (cs : ConfigSync) (source : String)
    (at : c.World → Key → Option R) (items : List R) (store : Key → Option R) where
  -- The sources are still there.
  abbrev pub AgreeAtSource : c.World → Type 0
  AgreeAtSource w = (k : Key) → k.namespace ≡ source → at w k ≡ store k

  abbrev pub with_copies : c.World → Key → Option R
  with_copies w k = put_named meta copy overwrite (named meta k.name items) k.namespace (at w k)

  -- What one round does.
  abbrev pub IsRound : Type 0
  IsRound =
      (t : String) (p : Progress) (w : c.World)
      → t ≢ source
      → AgreeAtSource w
      → (k : Key)
      → at (sync_namespace c cs source t p w).1 k
        ≡ (if t == k.namespace then with_copies w k else at w k)

  pub loop-at :
      IsRound
      → (targets : List String) (p : Progress) (w : c.World)
      → ((t : String) → In t targets → t ≢ source)
      → AgreeAtSource w
      → (k : Key)
      → at (sync_namespaces c cs source targets p w).1 k
        ≡ (if contains_string targets k.namespace then with_copies w k else at w k)
  unfolding sync_namespaces contains_string
  loop-at round [] p w apart agree k = refl
  loop-at round (t ∷ targets) p w apart agree k =
      let (p', w') = sync_namespace c cs source t p w in
      let first : (j : Key) → at w' j ≡ (if t == j.namespace then with_copies w j else at w j) =
        round t p w (apart t (inl refl)) agree in
      let agree' : AgreeAtSource w' =
        λ j e. first j ∙ ground (arith, eq_iff t j.namespace, apart t (inl refl), agree j) in
      ground (
        arith,
        loop-at round targets p' w' (λ u m. apart u (inr m)) agree' k,
        first k,
        put_named_idem C (named meta k.name items) k.namespace (at w k),
      )
