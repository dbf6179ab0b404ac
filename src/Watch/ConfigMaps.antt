-- ===== src/Watch/ConfigMaps.antt =====
-- operators/config-sync-zyql/controllers/configmap_controller.go
use cicd_tools.Prelude.{String, ◌<>◌, Bool, false, not, ◌&&◌, ◌||◌, List, ◌==◌, any}
use cicd_tools.Prelude.{if◌then◌else◌, not_found, other, Result, ok, err, Exec, pure, fail}
use cicd_tools.Prelude.{◌>>=◌, ◌>>◌, attempt}
use cicd_tools.Types.{Key, ConfigMap, ConfigSync}
use cicd_tools.Cluster.{Client, everything}
use cicd_tools.Labels.{is_synced}
use cicd_tools.Cleanup.{delete_synced_config_maps}
use cicd_tools.DataEqual.{data_equal, binary_data_equal}
use cicd_tools.Reconcile.{Requeue, no_requeue}
use cicd_tools.Watch.{watched_namespace, selects, trigger_each}

module _ (c : Client) where
  -- The tests of the loop in `triggerConfigSyncReconciliation`.
  unfoldable pub watches : String → ConfigMap → ConfigSync → Bool
  unfolding watched_namespace selects
  watches namespace cm cs =
      watched_namespace cs.spec == namespace
      && selects c.as_selector cs.spec.config_map_selector cm.labels

  unfoldable pub trigger_found : String → String → Result ConfigMap → Exec c.World Bool
  unfolding watches trigger_each
  trigger_found namespace name (err e) = elim e.reason [ not_found ↦ pure false | other ↦ fail e ]
  trigger_found namespace name (ok cm) = do
    items ← c.config_syncs.list everything
    trigger_each c ("configmap-" <> name <> "-") (watches namespace cm) items false

  unfoldable pub trigger : String → String → Exec c.World Bool
  unfolding trigger_found
  trigger namespace name =
      attempt (c.config_maps.get (record { namespace = namespace; name = name }))
        (trigger_found namespace name)

  unfoldable pub fetched : Key → Result ConfigMap → Exec c.World Requeue
  unfolding trigger delete_synced_config_maps is_synced
  fetched request (err e) = elim e.reason [
    | not_found ↦ do delete_synced_config_maps c request.namespace request.name; pure no_requeue
    | other ↦ fail e
  ]
  fetched request (ok cm) =
      if is_synced cm.labels
      then pure no_requeue
      else do trigger cm.namespace cm.name; pure no_requeue

  -- `ConfigMapReconciler.Reconcile`
  unfoldable pub reconcile : Key → Exec c.World Requeue
  unfolding fetched
  reconcile request = attempt (c.config_maps.get request) (fetched request)

  -- One round of the loop of `matchesAnyConfigSync`.
  unfoldable pub matches : ConfigMap → ConfigSync → Bool
  unfolding watched_namespace selects
  matches cm cs =
      if cm.namespace == watched_namespace cs.spec
      then selects c.as_selector cs.spec.config_map_selector cm.labels
      else false

  unfoldable pub any_listed : ConfigMap → Result (List ConfigSync) → Bool
  unfolding matches
  any_listed cm (err e) = false
  any_listed cm (ok items) = any (matches cm) items

  unfoldable pub matches_any : ConfigMap → c.World → Bool × c.World
  unfolding any_listed
  matches_any cm w =
      let (listed, w') = c.config_syncs.list everything w in (any_listed cm listed, w')

  -- The event filter: whether the event leads to a reconciliation.
  unfoldable pub on_create : ConfigMap → c.World → Bool × c.World
  unfolding matches_any is_synced
  on_create cm w = if is_synced cm.labels then (false, w) else matches_any cm w

unfoldable pub on_update : ConfigMap → ConfigMap → Bool
unfolding data_equal binary_data_equal is_synced
on_update old_cm new_cm =
    if is_synced new_cm.labels
    then false
    else not (data_equal old_cm.contents new_cm.contents)
      || not (binary_data_equal old_cm.binary_data new_cm.binary_data)

unfoldable pub on_delete : ConfigMap → Bool
unfolding is_synced
on_delete cm = not (is_synced cm.labels)
