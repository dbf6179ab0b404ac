-- ===== src/Watch/NamespacesSafety.antt =====
-- `NamespaceReconciler.Reconcile` and the objects that it leaves alone.
use cicd_tools.Prelude.{String, false, inl, inr, Result, ok, err, ◌<>◌, Reason-cases}
use cicd_tools.Prelude.Keeps.{Keeps, Keeps-if, Keeps-then, Keeps-bind, Keeps-attempt}
use cicd_tools.Types.{Key, Namespace}
use cicd_tools.Cluster.{Client, everything}
use cicd_tools.Labels.{is_system_namespace}
use cicd_tools.Reconcile.{no_requeue}
use cicd_tools.Reconcile.Steps.{Calls}
use cicd_tools.Watch.Namespaces.{should_sync, trigger, fetched, reconcile}
use cicd_tools.Watch.Touching.{trigger_each-Keeps}

module _ {c : Client} {P : c.World → Type 0} (calls : Calls c P) where
  trigger-Keeps : (ns : String) → Keeps P (trigger c ns)
  unfolding trigger
  trigger-Keeps ns =
      Keeps-bind (c.config_syncs.list everything) _ calls.list_config_syncs (λ _ items _.
        trigger_each-Keeps c P calls.now calls.update_config_sync
          ("namespace-created-" <> ns <> "-") (λ cs. should_sync ns cs.spec) items false)

  fetched-Keeps : (r : Result Namespace) → Keeps P (fetched c r)
  unfolding fetched
  fetched-Keeps (err e) w h = elim (Reason-cases e.reason) [
    | inl q ↦ rw (q, fetched) h
    | inr q ↦ rw (q, fetched) h
  ]
  fetched-Keeps (ok ns) w h =
      Keeps-if (is_system_namespace ns.name) _ _ (λ _ _ k. k)
        (λ _. Keeps-then (trigger c ns.name) no_requeue (trigger-Keeps ns.name)) w h

  -- What the calls keep, the controller keeps.
  pub watcher-Keeps : (request : Key) → Keeps P (reconcile c request)
  unfolding reconcile
  watcher-Keeps request =
      Keeps-attempt (c.namespaces.get request) (fetched c) (calls.get_namespace request)
        (λ _ r _. fetched-Keeps r)
