-- ===== src/Tests/Running.antt =====
-- Witnesses on runs of the whole operator.
use cicd_tools.Prelude.{◌≡◌, refl, ap, ◌∙◌, some, []}
use cicd_tools.Dict.{lookup}
use cicd_tools.Labels.{is_synced}
use cicd_tools.Cluster.Memory.{Objects, secret_in, config_map_in, memory, memory-IsLawful, find}
use cicd_tools.System.{Run, serve, start, served, meanwhile, for_config_sync, for_secret}
use cicd_tools.System.SecretsSafety.{Run-HoldsSecret}
use cicd_tools.System.ConfigMapsSafety.{Run-HoldsConfigMap}
use cicd_tools.Tests.{at, own_db, own_app, world}

-- A user who deletes all ConfigSyncs by force.
abbrev Forced : Objects → Objects → Type 0
Forced v w = w ≡ record v { config_syncs = [] }

-- The ConfigSync is reconciled, the user acts, and a source is deleted.
abbrev before : Objects
before = (serve memory (for_config_sync (at "" "shared")) world).1

abbrev after : Objects
after = record before { config_syncs = [] }

world-Run : Run memory Forced world (serve memory (for_secret (at "default" "db")) after).1
world-Run =
    served (for_secret (at "default" "db"))
      (meanwhile (served (for_config_sync (at "" "shared")) start) refl)

Run-HoldsSecret_example :
    secret_in (serve memory (for_secret (at "default" "db")) after).1 (at "qa" "db") ≡ some own_db
unfolding is_synced lookup find
Run-HoldsSecret_example =
    Run-HoldsSecret memory-IsLawful own_db refl Forced world
      (serve memory (for_secret (at "default" "db")) after).1
      (λ v w e h. ap (λ x. secret_in x (at "qa" "db")) e ∙ h) world-Run refl

Run-HoldsConfigMap_example :
    config_map_in (serve memory (for_secret (at "default" "db")) after).1 (at "qa" "app")
    ≡ some own_app
unfolding is_synced lookup find
Run-HoldsConfigMap_example =
    Run-HoldsConfigMap memory-IsLawful own_app refl Forced world
      (serve memory (for_secret (at "default" "db")) after).1
      (λ v w e h. ap (λ x. config_map_in x (at "qa" "app")) e ∙ h) world-Run refl
