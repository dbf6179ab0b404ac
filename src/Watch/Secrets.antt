-- ===== src/Watch/Secrets.antt =====
-- operators/config-sync-zyql/controllers/secret_controller.go
use cicd_tools.Prelude.{String, ◌<>◌, Bool, false, not, ◌&&◌, List, ◌==◌, any}
use cicd_tools.Prelude.{if◌then◌else◌, not_found, other, Result, ok, err, Exec, pure, fail}
use cicd_tools.Prelude.{◌>>=◌, ◌>>◌, attempt}
use cicd_tools.Types.{Key, Secret, ConfigSync}
use cicd_tools.Cluster.{Client, everything}
use cicd_tools.Labels.{is_synced, service_account_token}
use cicd_tools.Cleanup.{delete_synced_secrets}
use cicd_tools.DataEqual.{secret_data_equal}
use cicd_tools.Reconcile.{Requeue, no_requeue}
use cicd_tools.Watch.{watched_namespace, selects, trigger_each}

module _ (c : Client) where
  -- The tests of the loop in `triggerConfigSyncReconciliation`.
  unfoldable pub watches : String → Secret → ConfigSync → Bool
  unfolding watched_namespace selects
  watches namespace secret cs =
      watched_namespace cs.spec == namespace
      && selects c.as_selector cs.spec.secret_selector secret.labels

  unfoldable pub trigger_found : String → String → Result Secret → Exec c.World Bool
  unfolding watches trigger_each
  trigger_found namespace name (err e) = elim e.reason [ not_found ↦ pure false | other ↦ fail e ]
  trigger_found namespace name (ok secret) =
      if secret.type == service_account_token then pure false else do
        items ← c.config_syncs.list everything
        trigger_each c ("secret-" <> name <> "-") (watches namespace secret) items false

  unfoldable pub trigger : String → String → Exec c.World Bool
  unfolding trigger_found
  trigger namespace name =
      attempt (c.secrets.get (record { namespace = namespace; name = name }))
        (trigger_found namespace name)

  unfoldable pub fetched : Key → Result Secret → Exec c.World Requeue
  unfolding trigger delete_synced_secrets is_synced
  fetched request (err e) = elim e.reason [
    | not_found ↦ do delete_synced_secrets c request.namespace request.name; pure no_requeue
    | other ↦ fail e
  ]
  fetched request (ok secret) =
      if is_synced secret.labels
      then pure no_requeue
      else if secret.type == service_account_token
      then pure no_requeue
      else do trigger secret.namespace secret.name; pure no_requeue

  -- `SecretReconciler.Reconcile`
  unfoldable pub reconcile : Key → Exec c.World Requeue
  unfolding fetched
  reconcile request = attempt (c.secrets.get request) (fetched request)

  -- One round of the loop of `matchesAnyConfigSync`.
  unfoldable pub matches : Secret → ConfigSync → Bool
  unfolding watched_namespace selects
  matches secret cs =
      if secret.namespace == watched_namespace cs.spec
      then (if secret.type == service_account_token
          then false
          else selects c.as_selector cs.spec.secret_selector secret.labels)
      else false

  unfoldable pub any_listed : Secret → Result (List ConfigSync) → Bool
  unfolding matches
  any_listed secret (err e) = false
  any_listed secret (ok items) = any (matches secret) items

  unfoldable pub matches_any : Secret → c.World → Bool × c.World
  unfolding any_listed
  matches_any secret w =
      let (listed, w') = c.config_syncs.list everything w in (any_listed secret listed, w')

  -- The event filter: whether the event leads to a reconciliation.
  unfoldable pub on_create : Secret → c.World → Bool × c.World
  unfolding matches_any is_synced
  on_create secret w =
      if secret.type == service_account_token
      then (false, w)
      else if is_synced secret.labels
      then (false, w)
      else matches_any secret w

unfoldable pub on_update : Secret → Secret → Bool
unfolding secret_data_equal is_synced
on_update old_secret new_secret =
    if new_secret.type == service_account_token
    then false
    else if is_synced new_secret.labels
    then false
    else not (secret_data_equal old_secret.contents new_secret.contents)

unfoldable pub on_delete : Secret → Bool
unfolding is_synced
on_delete secret =
    if secret.type == service_account_token then false else not (is_synced secret.labels)
