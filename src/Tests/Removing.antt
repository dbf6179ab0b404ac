-- ===== src/Tests/Removing.antt =====
-- Witnesses on the deletions.
use cicd_tools.Prelude.{String, ◌≡◌, refl, none, some, [], ◌∷◌}
use cicd_tools.Dict.{lookup}
use cicd_tools.Types.{Secret, ConfigMap}
use cicd_tools.Cluster.Memory.{
  Objects, secret_in, config_map_in, memory, memory-IsLawful, memory_secrets-IsReliable,
  memory_config_maps-IsReliable, find,
}
use cicd_tools.Cleanup.{is_copy_of, delete_synced_secrets, delete_synced_config_maps}
use cicd_tools.Removal.Secrets.{delete_synced_secrets-removes}
use cicd_tools.Removal.ConfigMaps.{delete_synced_config_maps-removes}
use cicd_tools.Watch.Secrets
use cicd_tools.Watch.SecretsSafety.{watcher-HoldsSecret}
use cicd_tools.Tests.{at, secret_with, config_map_with, shared_labels, world}

-- Copies in a target namespace and in one that is no target any more.
abbrev db_in : String → Secret
db_in ns = secret_with ns "db" shared_labels

abbrev app_in : String → ConfigMap
app_in ns = config_map_with ns "app" shared_labels

abbrev copied : Objects
copied = record world {
  secrets = db_in "prod" ∷ db_in "old" ∷ [];
  config_maps = app_in "prod" ∷ app_in "old" ∷ [];
}

delete_synced_secrets-removes_example :
    secret_in (delete_synced_secrets memory "default" "db" copied).1 (at "old" "db") ≡ none
unfolding is_copy_of lookup find
delete_synced_secrets-removes_example =
    delete_synced_secrets-removes memory-IsLawful memory_secrets-IsReliable (db_in "old") refl
      "default" "db" copied refl refl

delete_synced_config_maps-removes_example :
    config_map_in (delete_synced_config_maps memory "default" "app" copied).1 (at "old" "app")
    ≡ none
unfolding is_copy_of lookup find
delete_synced_config_maps-removes_example =
    delete_synced_config_maps-removes memory-IsLawful memory_secrets-IsReliable
      memory_config_maps-IsReliable (app_in "old") refl "default" "app" copied refl refl

watcher-HoldsSecret_example :
    secret_in (Secrets.reconcile memory (at "default" "gone") copied).1 (at "prod" "db")
    ≡ some (db_in "prod")
unfolding is_copy_of lookup find
watcher-HoldsSecret_example =
    watcher-HoldsSecret memory-IsLawful (db_in "prod") (at "default" "gone") copied refl refl
