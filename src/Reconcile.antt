-- ===== src/Reconcile.antt =====
-- `ConfigSyncReconciler` of operators/config-sync-zyql/controllers/configsync_controller.go.
pub mod Steps
pub mod Whole
pub mod Safety
pub mod Counts
pub mod Convergence
pub mod Finalizer
use cicd_tools.Prelude.{ℕ, ◌+◌, String, ◌<>◌, true, false, none, some, List, [], ◌∷◌, ◌++◌}
use cicd_tools.Prelude.{if◌then◌else◌, is_some, length, not_found, other, Result, ok, err}
use cicd_tools.Prelude.{Exec, pure, fail, ◌>>=◌, ◌>>◌, attempt, Bool}
use cicd_tools.Prelude.Int.{ℤ, pos}
use cicd_tools.Decimal.{decimal}
use cicd_tools.Types.{
  Key, Secret, ConfigMap, ConfigSync, ConfigSyncStatus, NamespaceStatus, Condition,
}
use cicd_tools.Cluster.{Client}
use cicd_tools.Labels.{config_sync_finalizer}
use cicd_tools.Slices.{contains_string, remove_string}
use cicd_tools.Namespaces.{source_namespace, get_target_namespaces}
use cicd_tools.Sources.{list_source_secrets, list_source_config_maps}
use cicd_tools.Copies.{sync_secret, sync_config_map}
use cicd_tools.Cleanup.{is_enabled, cleanup_synced_resources, cleanup_removed_namespaces}
use cicd_tools.Interval.{get_sync_interval}

-- `ctrl.Result`; a `RequeueAfter` of 0 asks for nothing.
pub record Requeue : Type 0 where
  pub requeue : Bool
  pub requeue_after : ℤ

abbrev pub no_requeue : Requeue
no_requeue = record { requeue = false; requeue_after = pos 0 }

-- What the loop over the target namespaces has so far: `namespaceStatuses`, `totalSecrets` and
-- `totalConfigMaps`.
pub record Progress : Type 0 where
  pub statuses : List NamespaceStatus
  pub total_secrets : ℕ
  pub total_config_maps : ℕ

abbrev pub no_progress : Progress
no_progress = record { statuses = []; total_secrets = 0; total_config_maps = 0 }

-- `syncedCount++` where there was no error
abbrev pub bump {ℓ} : {A : Type ℓ} → Result A → ℕ → ℕ
bump (ok a) n = n + 1
bump (err e) n = n

-- The loop that copies each listed object; a failure is logged and not counted.
unfoldable pub sync_each : {W R : Type 0} → (R → Exec W (Unit {0})) → List R → ℕ → W → ℕ × W
sync_each copy [] count w = (count, w)
sync_each copy (r ∷ items) count w =
    let (result, w') = copy r w in sync_each copy items (bump result count) w'

-- The status at the start of a round of the loop.
abbrev pub started : String → NamespaceStatus
started ns = record {
  namespace = ns;
  synced_secrets = 0;
  synced_config_maps = 0;
  last_sync_time = none;
  status = "Success";
  message = "";
}

module _ (c : Client) (cs : ConfigSync) (source : String) where
  -- Copy the secrets that were listed, or report that they could not be; the total comes along.
  unfoldable pub secrets_listed :
      NamespaceStatus → ℕ → Result (List Secret) → c.World → NamespaceStatus × ℕ × c.World
  unfolding sync_each sync_secret
  secrets_listed st total (err e) w =
      (record st { status = "Failed"; message = "failed to list secrets: " <> e.message }, total, w)
  secrets_listed st total (ok items) w =
      let (count, w') = sync_each (λ s. sync_secret c s st.namespace source cs.name) items 0 w in
      (record st { synced_secrets = count }, total + count, w')

  unfoldable pub config_maps_listed :
      NamespaceStatus → ℕ → Result (List ConfigMap) → c.World → NamespaceStatus × ℕ × c.World
  unfolding sync_each sync_config_map
  config_maps_listed st total (err e) w = (
    record st { status = "Failed"; message = "failed to list configmaps: " <> e.message },
    total,
    w,
  )
  config_maps_listed st total (ok items) w =
      let (count, w') =
        sync_each (λ cm. sync_config_map c cm st.namespace source cs.name) items 0 w in
      (record st { synced_config_maps = count }, total + count, w')

  -- The step "Sync Secrets" of one round.
  unfoldable pub secrets_phase : NamespaceStatus → ℕ → c.World → NamespaceStatus × ℕ × c.World
  unfolding secrets_listed list_source_secrets is_enabled
  secrets_phase st total w =
      if is_enabled cs.spec.sync_secrets
      then (let (listed, w') = list_source_secrets c source cs.spec.secret_selector w in
          secrets_listed st total listed w')
      else (st, total, w)

  -- The step "Sync ConfigMaps" of one round.
  unfoldable pub config_maps_phase : NamespaceStatus → ℕ → c.World → NamespaceStatus × ℕ × c.World
  unfolding config_maps_listed list_source_config_maps is_enabled
  config_maps_phase st total w =
      if is_enabled cs.spec.sync_config_maps
      then (let (listed, w') = list_source_config_maps c source cs.spec.config_map_selector w in
          config_maps_listed st total listed w')
      else (st, total, w)

  -- The body of the loop over the target namespaces.
  unfoldable pub sync_namespace : String → Progress → c.World → Progress × c.World
  unfolding secrets_phase config_maps_phase
  sync_namespace ns p w =
      let (st₁, secrets, w₁) = secrets_phase (started ns) p.total_secrets w in
      let (st₂, config_maps, w₂) = config_maps_phase st₁ p.total_config_maps w₁ in
      let (now, w₃) = c.now w₂ in
      (
        record {
          statuses = p.statuses ++ (record st₂ { last_sync_time = some now } ∷ []);
          total_secrets = secrets;
          total_config_maps = config_maps;
        },
        w₃,
      )

  unfoldable pub sync_namespaces : List String → Progress → c.World → Progress × c.World
  unfolding sync_namespace
  sync_namespaces [] p w = (p, w)
  sync_namespaces (ns ∷ targets) p w =
      let (p', w') = sync_namespace ns p w in sync_namespaces targets p' w'

-- The message of the condition.
unfoldable pub summary : Progress → List String → String
unfolding decimal
summary p targets =
    "Synced "
    <> decimal p.total_secrets
    <> " secrets and "
    <> decimal p.total_config_maps
    <> " configmaps to "
    <> decimal (length targets)
    <> " namespaces"

-- The status that is written at the end.
unfoldable pub final_status : Progress → List String → ℕ → ConfigSyncStatus
unfolding summary
final_status p targets now = record {
  synced_secrets = p.total_secrets;
  synced_config_maps = p.total_config_maps;
  last_sync_time = some now;
  conditions =
      (record {
        type = "Ready";
        status = "True";
        reason = "SyncSuccessful";
        message = summary p targets;
        last_transition_time = now;
      }
        ∷ []);
  target_namespace_status = p.statuses;
}

module _ (c : Client) where
  -- The loop over the targets and all that follows it.
  unfoldable pub sync_targets : ConfigSync → String → List String → Exec c.World Requeue
  unfolding sync_namespaces final_status get_sync_interval
  sync_targets cs source targets w =
      let (p, w₁) = sync_namespaces c cs source targets no_progress w in
      let (now, w₂) = c.now w₁ in
      (do
        c.update_status (record cs { status = final_status p targets now })
        pure (record {
          requeue = false;
          requeue_after = get_sync_interval cs.spec.sync_interval_seconds;
        }))
        w₂

  -- A ConfigSync that is not being deleted and carries the finalizer.
  unfoldable pub synchronise : ConfigSync → Exec c.World Requeue
  unfolding source_namespace get_target_namespaces cleanup_removed_namespaces sync_targets
  synchronise cs = do
    let source = source_namespace cs.spec
    targets ← get_target_namespaces c cs.spec source
    cleanup_removed_namespaces c cs source targets
    sync_targets cs source targets

  unfoldable pub add_finalizer : ConfigSync → Exec c.World Requeue
  add_finalizer cs = do
    let finalizers = cs.finalizers ++ config_sync_finalizer ∷ []
    c.config_syncs.update (record cs { meta = record cs.meta { finalizers = finalizers } })
    pure (record { requeue = true; requeue_after = pos 0 })

  -- A ConfigSync that is being deleted.
  unfoldable pub finalize : ConfigSync → Exec c.World Requeue
  unfolding contains_string remove_string cleanup_synced_resources
  finalize cs =
      if contains_string cs.finalizers config_sync_finalizer
      then (do
        cleanup_synced_resources c cs
        let finalizers = remove_string cs.finalizers config_sync_finalizer
        c.config_syncs.update (record cs { meta = record cs.meta { finalizers = finalizers } })
        pure no_requeue)
      else pure no_requeue

  unfoldable pub handle : ConfigSync → Exec c.World Requeue
  unfolding finalize add_finalizer synchronise contains_string
  handle cs =
      if is_some cs.deletion_timestamp
      then finalize cs
      else if contains_string cs.finalizers config_sync_finalizer
      then synchronise cs
      else add_finalizer cs

  -- What follows the look-up of the request's object.
  unfoldable pub fetched : Result ConfigSync → Exec c.World Requeue
  unfolding handle
  fetched (err e) = elim e.reason [ not_found ↦ pure no_requeue | other ↦ fail e ]
  fetched (ok cs) = handle cs

  unfoldable pub reconcile : Key → Exec c.World Requeue
  unfolding fetched
  reconcile request = attempt (c.config_syncs.get request) fetched
