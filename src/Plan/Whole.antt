-- ===== src/Plan/Whole.antt =====
-- A whole reconciliation of a ConfigSync that is live and carries the finalizer, against the plan,
-- for the objects of one type.
use cicd_tools.Prelude.{
  String, ◌≡◌, refl, ap, ◌∙◌, true, none, some, List, arith, Option, ok, if◌then◌else◌,
}
use cicd_tools.Prelude.Keeps.{Keeps-bind}
use cicd_tools.Types.{Key, ObjectMeta, ConfigSync}
use cicd_tools.Cluster.{Client, everything}
use cicd_tools.Labels.{config_sync_finalizer}
use cicd_tools.Slices.{contains_string}
use cicd_tools.Namespaces.{source_namespace, get_target_namespaces}
use cicd_tools.Namespaces.Targets.{get_target_namespaces-IsOpen}
use cicd_tools.Cleanup.{cleanup_removed_namespaces}
use cicd_tools.Reconcile.{no_progress, sync_namespaces, sync_targets, synchronise, handle}
use cicd_tools.Plan.{named, put_named, pruned, expected, IsCopier}
use cicd_tools.Plan.Loop.{AgreeAtSource, IsRound, loop-at}
use cicd_tools.Plan.Assembly.{doomed, stale, pruned-source, assembled}

-- Calls that leave a view of the world alone.
pub record IsQuiet {X : Type 0} (c : Client) (view : c.World → X) : Type 0 where
  pub list_namespaces : (w : c.World) → view (c.namespaces.list everything w).1 ≡ view w
  pub update_status : (cs : ConfigSync) (w : c.World) → view (c.update_status cs w).1 ≡ view w
  pub now : (w : c.World) → view (c.now w).1 ≡ view w

module _ {X : Type 0} {c : Client} {view : c.World → X} (Q : IsQuiet c view) (cs : ConfigSync)
    (source : String) where
  pub targets-same : (w : c.World) → view (get_target_namespaces c cs.spec source w).1 ≡ view w
  unfolding get_target_namespaces
  targets-same w = ground (arith, Q.list_namespaces w)

  sync_targets-same :
      (targets : List String) (w : c.World)
      → view (sync_targets c cs source targets w).1
        ≡ view (sync_namespaces c cs source targets no_progress w).1
  unfolding sync_targets
  sync_targets-same targets w =
      let p = sync_namespaces c cs source targets no_progress w in
      Keeps-bind {P = λ v. view v ≡ view p.1} (c.update_status _) _ (λ v h. Q.update_status _ v ∙ h)
        (λ _ _ _ v h. h) _ (Q.now p.1)

module _ (c : Client) (cs : ConfigSync) where
  world-handle :
      (w : c.World) (targets : List String)
      → cs.deletion_timestamp ≡ none
      → contains_string cs.finalizers config_sync_finalizer ≡ true
      → (get_target_namespaces c cs.spec (source_namespace cs.spec) w).0 ≡ ok targets
      → let v = (get_target_namespaces c cs.spec (source_namespace cs.spec) w).1 in
        (cleanup_removed_namespaces c cs (source_namespace cs.spec) targets v).0 ≡ ok tt
        → handle c cs w
          ≡ sync_targets c cs
              (source_namespace cs.spec)
              targets
              (cleanup_removed_namespaces c cs (source_namespace cs.spec) targets v).1
  unfolding handle synchronise
  world-handle w targets live ready found cleaned = rw (live, ready, found, cleaned) refl

module _ {R : Type 0} {meta : R → ObjectMeta} {copy : R → String → R} {overwrite : R → R → R}
    (C : IsCopier meta copy overwrite) {c : Client} {at : c.World → Key → Option R}
    (Q : IsQuiet c at) (cs : ConfigSync) (items : List R) (w : c.World) where
  abbrev source : String
  source = source_namespace cs.spec

  -- What the clean-up does.
  abbrev pub IsCleanup : List String → Type 0
  IsCleanup targets =
      (v : c.World)
      → at v ≡ at w
      → ((cleanup_removed_namespaces c cs source targets v).0 ≡ ok tt)
        × ((k : Key)
            → at (cleanup_removed_namespaces c cs source targets v).1 k
              ≡ pruned (doomed meta cs source targets) (at w k))

  pub handle-planned :
      (targets : List String)
      → cs.deletion_timestamp ≡ none
      → contains_string cs.finalizers config_sync_finalizer ≡ true
      → (get_target_namespaces c cs.spec source w).0 ≡ ok targets
      → ((k : Key) (x : R) → at w k ≡ some x → (meta x).namespace ≡ k.namespace)
      → IsCleanup targets
      → IsRound C c cs source at items (at w)
      → (k : Key)
      → at (handle c cs w).1 k
        ≡ expected meta copy overwrite (stale meta cs source) items targets (at w) k
  handle-planned targets live ready found keyed clean round k =
      let v = (get_target_namespaces c cs.spec source w).1 in
      let (fine, left) = clean v (targets-same Q cs source w) in
      let u = (cleanup_removed_namespaces c cs source targets v).1 in
      let agree : AgreeAtSource C c cs source at items (at w) u =
        λ j e. left j ∙ pruned-source meta cs source targets j (at w j) (keyed j) e in
      let looped =
        loop-at C c cs source at items (at w) round targets no_progress u
          (λ t m. (get_target_namespaces-IsOpen c cs.spec source w targets found t m).1) agree k in
      ap (λ z. at z.1 k) (world-handle c cs w targets live ready found fine)
      ∙ ap (λ f. f k) (sync_targets-same Q cs source targets u)
      ∙ looped
      ∙ ap
          (λ x.
            if contains_string targets k.namespace
            then put_named meta copy overwrite (named meta k.name items) k.namespace x
            else x)
          (left k)
      ∙ assembled meta cs source targets k copy overwrite items (at w) (keyed k)
