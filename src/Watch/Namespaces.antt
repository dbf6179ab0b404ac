-- ===== src/Watch/Namespaces.antt =====
-- operators/config-sync-zyql/controllers/namespace_controller.go
use cicd_tools.Prelude.{String, ◌<>◌, Bool, true, false, not}
use cicd_tools.Prelude.{if◌then◌else◌, not_found, other, Result, ok, err, Exec, pure, fail}
use cicd_tools.Prelude.{◌>>=◌, ◌>>◌, attempt}
use cicd_tools.Types.{Key, Namespace, ConfigSyncSpec}
use cicd_tools.Cluster.{Client, everything}
use cicd_tools.Labels.{is_system_namespace}
use cicd_tools.Slices.{contains_string}
use cicd_tools.Reconcile.{Requeue, no_requeue}
use cicd_tools.Watch.{trigger_each}

-- `shouldSync`. Both loops with their `break` are searches of a list.
unfoldable pub should_sync : String → ConfigSyncSpec → Bool
unfolding contains_string
should_sync ns spec =
    if contains_string spec.target_namespaces ns
    then not (contains_string spec.excluded_namespaces ns)
    else false

module _ (c : Client) where
  -- `triggerConfigSyncForNamespace`
  unfoldable pub trigger : String → Exec c.World Bool
  unfolding should_sync trigger_each
  trigger ns = do
    items ← c.config_syncs.list everything
    trigger_each c ("namespace-created-" <> ns <> "-") (λ cs. should_sync ns cs.spec) items false

  unfoldable pub fetched : Result Namespace → Exec c.World Requeue
  unfolding trigger is_system_namespace
  fetched (err e) = elim e.reason [ not_found ↦ pure no_requeue | other ↦ fail e ]
  fetched (ok ns) =
      if is_system_namespace ns.name then pure no_requeue else do trigger ns.name; pure no_requeue

  -- `NamespaceReconciler.Reconcile`
  unfoldable pub reconcile : Key → Exec c.World Requeue
  unfolding fetched
  reconcile request = attempt (c.namespaces.get request) fetched

-- The event filter: only creations outside the system namespaces pass.
unfoldable pub on_create : Namespace → Bool
unfolding is_system_namespace
on_create ns = if is_system_namespace ns.name then false else true
