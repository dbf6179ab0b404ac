-- ===== src/Tests/Safety.antt =====
-- Witnesses on reconciliations as a whole.
use cicd_tools.Prelude.{◌≡◌, refl, some, [], ◌∷◌}
use cicd_tools.Dict.{lookup}
use cicd_tools.Labels.{is_owned}
use cicd_tools.Cluster.Memory.{Objects, secret_in, config_map_in, memory, memory-IsLawful, find}
use cicd_tools.Types.{ConfigSyncStatus}
use cicd_tools.Namespaces.{source_namespace}
use cicd_tools.Slices.{contains_string}
use cicd_tools.Reconcile.{handle, finalize, sync_targets, sync_namespaces, no_progress}
use cicd_tools.Reconcile.Counts.{IsReport, sync_targets-reports}
use cicd_tools.Reconcile.Finalizer.{handle-AreKept}
use cicd_tools.Reconcile.Safety.Secrets.{handle-HoldsSecret, finalize-HoldsSecret}
use cicd_tools.Reconcile.Safety.ConfigMaps.{handle-HoldsConfigMap, finalize-HoldsConfigMap}
use cicd_tools.Tests.{at, db, foreign, app, foreign_app, shared, fresh, doomed, world}

handle-HoldsSecret_example : secret_in (handle memory shared world).1 (at "default" "db") ≡ some db
unfolding source_namespace find
handle-HoldsSecret_example =
    handle-HoldsSecret memory-IsLawful shared db world refl (λ (plain, apart). apart refl) refl

finalize-HoldsSecret_example :
    secret_in (finalize memory doomed world).1 (at "prod" "tls") ≡ some foreign
unfolding is_owned source_namespace lookup find
finalize-HoldsSecret_example = finalize-HoldsSecret memory-IsLawful doomed foreign world refl refl

handle-HoldsConfigMap_example :
    config_map_in (handle memory shared world).1 (at "default" "app") ≡ some app
unfolding source_namespace find
handle-HoldsConfigMap_example =
    handle-HoldsConfigMap memory-IsLawful shared app world refl (λ (plain, apart). apart refl) refl

finalize-HoldsConfigMap_example :
    config_map_in (finalize memory doomed world).1 (at "prod" "tls") ≡ some foreign_app
unfolding is_owned source_namespace lookup find
finalize-HoldsConfigMap_example =
    finalize-HoldsConfigMap memory-IsLawful doomed foreign_app world refl refl

handle-AreKept_example :
    (secret_in (handle memory fresh world).1 ≡ secret_in world)
    × (config_map_in (handle memory fresh world).1 ≡ config_map_in world)
unfolding contains_string
handle-AreKept_example = handle-AreKept memory-IsLawful fresh world refl

abbrev after_loop : Objects
after_loop = (sync_namespaces memory shared "default" ("qa" ∷ "prod" ∷ []) no_progress world).1

sync_targets-reports_example :
    (status : ConfigSyncStatus) × ((sync_targets memory shared "default"
        ("qa" ∷ "prod" ∷ [])
        world).1
      ≡ (memory.update_status (record shared { status = status }) (memory.now after_loop).1).1)
    × IsReport ("qa" ∷ "prod" ∷ []) (memory.now after_loop).0 status
sync_targets-reports_example =
    sync_targets-reports memory shared "default" ("qa" ∷ "prod" ∷ []) world
