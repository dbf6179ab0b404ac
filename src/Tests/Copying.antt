-- ===== src/Tests/Copying.antt =====
-- Witnesses on targets and copies.
use cicd_tools.Prelude.{String, ◌≡◌, refl, some, false, ◌≢◌, ◌↔◌, [], ◌∷◌, In}
use cicd_tools.Dict.{lookup}
use cicd_tools.Types.{Secret, ConfigMap}
use cicd_tools.Labels.{is_synced, is_system_namespace}
use cicd_tools.Cluster.Memory.{secret_in, config_map_in, memory, memory-IsLawful, find, store_api}
use cicd_tools.Namespaces.{filter_namespaces}
use cicd_tools.Namespaces.Targets.{filter_namespaces_iff}
use cicd_tools.Copies.{
  sync_secret, sync_config_map, copy_meta, copy_secret, copy_config_map, write_found, write_copy,
}
use cicd_tools.Copies.Secrets.{SecretOutcome, sync_secret-copies}
use cicd_tools.Copies.ConfigMaps.{ConfigMapOutcome, sync_config_map-copies}
use cicd_tools.Tests.{at, db, app, world}

filter_namespaces_iff_example :
    In {A = String} "qa"
      (filter_namespaces ("default" ∷ "qa" ∷ "kube-system" ∷ []) ("dev" ∷ []) "default")
    ↔ (In {A = String} "qa" ("default" ∷ "qa" ∷ "kube-system" ∷ [])
        × (¬ In {A = String} "qa" ("dev" ∷ []))
        × (is_system_namespace "qa" ≡ false)
        × ◌≢◌ {A = String} "qa" "default")
filter_namespaces_iff_example =
    filter_namespaces_iff ("default" ∷ "qa" ∷ "kube-system" ∷ []) ("dev" ∷ []) "default" "qa"

sync_secret-copies_example :
    (r : Secret) × (secret_in
        (sync_secret memory db "prod" "default" "shared" world).1
        (at "prod" "db")
      ≡ some r)
    × SecretOutcome memory-IsLawful "prod" "default" "shared" db world r
unfolding sync_secret copy_secret copy_meta write_copy write_found find store_api is_synced lookup
sync_secret-copies_example =
    sync_secret-copies memory-IsLawful "prod" "default" "shared" db world refl

sync_config_map-copies_example :
    (r : ConfigMap) × (config_map_in
        (sync_config_map memory app "prod" "default" "shared" world).1
        (at "prod" "app")
      ≡ some r)
    × ConfigMapOutcome memory-IsLawful "prod" "default" "shared" app world r
unfolding sync_config_map copy_config_map copy_meta write_copy write_found find store_api is_synced
    lookup
sync_config_map-copies_example =
    sync_config_map-copies memory-IsLawful "prod" "default" "shared" app world refl
