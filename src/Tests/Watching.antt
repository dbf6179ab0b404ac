-- ===== src/Tests/Watching.antt =====
-- Witnesses on the watchers.
use cicd_tools.Prelude.{String, ◌≡◌, refl, false, true, ◌↔◌, [], ◌∷◌, In, ok, inl, inr}
use cicd_tools.Types.{ConfigSyncSpec}
use cicd_tools.Labels.{is_synced, is_system_namespace}
use cicd_tools.Cluster.{within}
use cicd_tools.Cluster.Memory.{memory}
use cicd_tools.Namespaces.{source_namespace, filter_namespaces}
use cicd_tools.Sources.{is_source_secret, is_source_config_map, list_options}
use cicd_tools.Copies.{copy_secret, copy_config_map}
use cicd_tools.Copies.Spec.{IsSecretCopy, IsConfigMapCopy, copy_meta-IsCopyMeta}
use cicd_tools.Reconcile.{no_requeue}
use cicd_tools.Watch.Secrets
use cicd_tools.Watch.ConfigMaps
use cicd_tools.Watch.Namespaces.{should_sync}
use cicd_tools.Watch.Loops.{
  Secret-watched, ConfigMap-watched, IsSecretCopy-ignored, IsConfigMapCopy-ignored,
}
use cicd_tools.Watch.NewNamespaces.{should_sync_iff, should_sync-misses}
use cicd_tools.Tests.{at, db, app, shared, shared_spec, world}

Secret-watched_example :
    (Secrets.matches memory db shared ≡ true) × (Secrets.watches memory "default" db shared ≡ true)
unfolding list_options source_namespace is_source_secret is_synced
Secret-watched_example = Secret-watched memory shared (within "default") db refl refl refl refl

ConfigMap-watched_example :
    (ConfigMaps.matches memory app shared ≡ true)
    × (ConfigMaps.watches memory "default" app shared ≡ true)
unfolding list_options source_namespace
ConfigMap-watched_example = ConfigMap-watched memory shared (within "default") app refl refl refl

db_copy-IsSecretCopy :
    IsSecretCopy db (copy_secret db "prod" "default" "shared") "prod" "default" "shared"
unfolding copy_secret
db_copy-IsSecretCopy = record {
  meta = copy_meta-IsCopyMeta db.meta "prod" "default" "shared";
  type = refl;
  contents = refl;
}

IsSecretCopy-ignored_example :
    let copy = copy_secret db "prod" "default" "shared" in
    (Secrets.on_create memory copy world ≡ (false, world))
    × (Secrets.on_update db copy ≡ false)
    × (Secrets.on_delete copy ≡ false)
    × (Secrets.fetched memory (at "prod" "db") (ok copy) world ≡ (ok no_requeue, world))
    × (is_source_secret copy ≡ false)
IsSecretCopy-ignored_example =
    IsSecretCopy-ignored memory "prod" "default" "shared" db
      (copy_secret db "prod" "default" "shared") db (at "prod" "db") world db_copy-IsSecretCopy

app_copy-IsConfigMapCopy :
    IsConfigMapCopy app (copy_config_map app "prod" "default" "shared") "prod" "default" "shared"
unfolding copy_config_map
app_copy-IsConfigMapCopy = record {
  meta = copy_meta-IsCopyMeta app.meta "prod" "default" "shared";
  contents = refl;
  binary_data = refl;
}

IsConfigMapCopy-ignored_example :
    let copy = copy_config_map app "prod" "default" "shared" in
    (ConfigMaps.on_create memory copy world ≡ (false, world))
    × (ConfigMaps.on_update app copy ≡ false)
    × (ConfigMaps.on_delete copy ≡ false)
    × (ConfigMaps.fetched memory (at "prod" "app") (ok copy) world ≡ (ok no_requeue, world))
    × (is_source_config_map copy ≡ false)
IsConfigMapCopy-ignored_example =
    IsConfigMapCopy-ignored memory "prod" "default" "shared" app
      (copy_config_map app "prod" "default" "shared") app (at "prod" "app") world
      app_copy-IsConfigMapCopy

should_sync_iff_example :
    (should_sync "qa" shared_spec ≡ true)
    ↔ In {A = String} "qa" (filter_namespaces shared_spec.target_namespaces [] "default")
unfolding is_system_namespace
should_sync_iff_example = should_sync_iff "qa" shared_spec "default" refl (λ e. cc)

-- A ConfigSync for all namespaces.
abbrev everywhere : ConfigSyncSpec
everywhere = record shared_spec { target_namespaces = [] }

should_sync-misses_example :
    In {A = String} "qa" (filter_namespaces ("default" ∷ "qa" ∷ []) [] "default")
    × (should_sync "qa" everywhere ≡ false)
unfolding is_system_namespace
should_sync-misses_example =
    should_sync-misses "qa" everywhere "default" refl (λ e. cc) ("default" ∷ "qa" ∷ []) refl
      (inr (inl refl)) (λ h. h)
