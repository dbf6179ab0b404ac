-- ===== src/Cleanup.antt =====
-- The deletions of copies: `cleanupSyncedResources` and `cleanupRemovedNamespaces` of
-- operators/config-sync-zyql/controllers/configsync_controller.go, and `deleteSyncedSecrets` and
-- `deleteSyncedConfigMaps` of secret_controller.go and configmap_controller.go there.
-- A deletion that fails is logged and passed over, so the loops have no result.
pub mod Missing
use cicd_tools.Prelude.{String, Bool, true, false, not, ◌&&◌, Option, none, some, List, [], ◌∷◌}
use cicd_tools.Prelude.{◌==◌, if◌then◌else◌, is_some, Result, ok, err, wrap, Exec, fail}
use cicd_tools.Prelude.{◌>>=◌, ◌>>◌, attempt}
use cicd_tools.Dict.{Dict, lookup}
use cicd_tools.Types.{ObjectMeta, ConfigSync}
use cicd_tools.Cluster.{Api, Client, everything, within}
use cicd_tools.Labels.{synced_from_label, holds, is_owned, is_system_namespace}
use cicd_tools.Namespaces.{source_namespace, mark, get_target_namespaces}

-- A setting that defaults to true: `SyncSecrets`, `SyncConfigMaps`.
unfoldable pub is_enabled : Option Bool → Bool
is_enabled none = true
is_enabled (some b) = b

module _ {W R : Type 0} (api : Api W R) (doomed : R → Bool) where
  -- The loop over listed objects: those that pass the test are deleted.
  unfoldable pub delete_where : List R → W → W
  delete_where [] w = w
  delete_where (r ∷ items) w = delete_where items (if doomed r then (api.delete r w).1 else w)

  unfoldable pub delete_listed : Result (List R) → W → W
  unfolding delete_where
  delete_listed (err e) w = w
  delete_listed (ok items) w = delete_where items w

  -- The loop over namespaces; one that cannot be listed is passed over.
  unfoldable pub sweep : List String → W → W
  unfolding delete_listed
  sweep [] w = w
  sweep (ns ∷ namespaces) w =
      let (listed, w') = api.list (within ns) w in sweep namespaces (delete_listed listed w')

-- A step that cannot fail.
abbrev pub act : {W : Type 0} → (W → W) → Exec W (Unit {0})
act f w = (ok tt, f w)

-- `shouldDeleteFrom`
unfoldable pub should_delete_from : String → Dict Bool → String → Bool
unfolding is_system_namespace lookup
should_delete_from source target_set ns =
    if ns == source
    then false
    else if is_system_namespace ns
    then false
    else not (is_some (lookup ns target_set))

-- The copies of this ConfigSync in a namespace that is no target any more.
unfoldable pub is_left_over : ConfigSync → String → Dict Bool → ObjectMeta → Bool
unfolding is_owned should_delete_from
is_left_over cs source target_set meta =
    is_owned source cs.name meta.labels && should_delete_from source target_set meta.namespace

-- The copy of a source object, whichever ConfigSync made it.
unfoldable pub is_copy_of : String → String → ObjectMeta → Bool
unfolding lookup
is_copy_of source name meta =
    holds (lookup synced_from_label meta.labels) source && meta.name == name

module _ (c : Client) where
  unfoldable pub delete_copies : ConfigSync → String → List String → c.World → c.World
  unfolding sweep is_enabled is_owned
  delete_copies cs source targets w =
      let w₁ =
        if is_enabled cs.spec.sync_secrets
        then sweep c.secrets (λ s. is_owned source cs.name s.labels) targets w
        else w in
      if is_enabled cs.spec.sync_config_maps
      then sweep c.config_maps (λ cm. is_owned source cs.name cm.labels) targets w₁
      else w₁

  -- What follows the choice of the target namespaces.
  unfoldable pub cleanup_targets : ConfigSync → Result (List String) → Exec c.World (Unit {0})
  unfolding delete_copies
  cleanup_targets cs (err e) = fail (wrap "failed to get target namespaces: " e)
  cleanup_targets cs (ok targets) = act (delete_copies cs (source_namespace cs.spec) targets)

  unfoldable pub cleanup_synced_resources : ConfigSync → Exec c.World (Unit {0})
  unfolding cleanup_targets source_namespace get_target_namespaces
  cleanup_synced_resources cs =
      attempt (get_target_namespaces c cs.spec (source_namespace cs.spec)) (cleanup_targets cs)

  unfoldable pub cleanup_removed_namespaces :
      ConfigSync → String → List String → Exec c.World (Unit {0})
  unfolding mark is_left_over delete_where
  cleanup_removed_namespaces cs source targets = do
    let doomed = is_left_over cs source (mark targets [])
    secrets ← c.secrets.list everything
    act (delete_where c.secrets (λ s. doomed s.meta) secrets)
    config_maps ← c.config_maps.list everything
    act (delete_where c.config_maps (λ cm. doomed cm.meta) config_maps)

  unfoldable pub delete_synced_secrets : String → String → Exec c.World (Unit {0})
  unfolding is_copy_of delete_where
  delete_synced_secrets source name = do
    secrets ← c.secrets.list everything
    act (delete_where c.secrets (λ s. is_copy_of source name s.meta) secrets)

  unfoldable pub delete_synced_config_maps : String → String → Exec c.World (Unit {0})
  unfolding is_copy_of delete_where
  delete_synced_config_maps source name = do
    config_maps ← c.config_maps.list everything
    act (delete_where c.config_maps (λ cm. is_copy_of source name cm.meta) config_maps)
