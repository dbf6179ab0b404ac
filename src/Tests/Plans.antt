-- ===== src/Tests/Plans.antt =====
-- Witnesses on the plan.
use cicd_tools.Prelude.{
  some, ◌∙◌, ◌≢◌, arith, eq_iff, String, ◌≡◌, refl, ap, sym, List, [], ◌∷◌, In, inl, inr,
}
use cicd_tools.Dict.{lookup, insert}
use cicd_tools.Types.{Key, Secret, ConfigMap}
use cicd_tools.Cluster.{within}
use cicd_tools.Sources.{is_source_secret, is_source_config_map, list_options}
use cicd_tools.Copies.{copy_secret, copy_config_map, overwrite_secret, overwrite_config_map}
use cicd_tools.Cluster.Memory.{
  Objects, find, memory_config_syncs-IsStore, memory_config_syncs-IsWritable, secret_in,
  config_map_in, memory, memory-IsLawful, memory_secrets-IsReliable, memory_config_maps-IsReliable,
  memory_secrets-IsWritable, memory_config_maps-IsWritable, In-find,
}
use cicd_tools.Slices.{contains_string}
use cicd_tools.Namespaces.{
  source_namespace, get_target_namespaces, candidates, filter_namespaces, is_marked, mark,
}
use cicd_tools.Cleanup.{is_enabled}
use cicd_tools.Reconcile.{reconcile, handle}
use cicd_tools.Labels.{is_owned}
use cicd_tools.Plan.{expected, withdrawn}
use cicd_tools.Plan.Deletion.{
  handle-misses_secret, handle-withdraws_secrets, handle-withdraws_config_maps,
}
use cicd_tools.Plan.Sources.{IsSources}
use cicd_tools.Plan.Assembly.{stale, IsFree}
use cicd_tools.Plan.Secrets.Whole.{handle-refines_secrets, handle-again_secrets}
use cicd_tools.Plan.ConfigMaps.Whole.{handle-refines_config_maps, handle-again_config_maps}
use cicd_tools.Plan.Secrets.Fresh.{reconcile_twice-refines_secrets}
use cicd_tools.Plan.ConfigMaps.Fresh.{reconcile_twice-refines_config_maps}
use cicd_tools.Tests.{
  left_over, at, secret_with, config_map_with, shared_labels, db, app, doomed, fresh, shared, world,
}

abbrev shared_targets : List String
shared_targets = "qa" ∷ "prod" ∷ []

plain_secrets : (x : Secret) → In x world.secrets → x.finalizers ≡ []
plain_secrets x (inl e) = ap (λ s. s.finalizers) (sym e)
plain_secrets x (inr (inl e)) = ap (λ s. s.finalizers) (sym e)
plain_secrets x (inr (inr (inl e))) = ap (λ s. s.finalizers) (sym e)
plain_secrets x (inr (inr (inr (inl e)))) = ap (λ s. s.finalizers) (sym e)
plain_secrets x (inr (inr (inr (inr e)))) = absurd e

world_secrets-IsFree : IsFree (λ s. s.meta) shared "default" shared_targets (secret_in world)
world_secrets-IsFree k x there outside old =
    plain_secrets x (In-find (λ s. s.meta) k world.secrets x there)

plain_config_maps : (x : ConfigMap) → In x world.config_maps → x.finalizers ≡ []
plain_config_maps x (inl e) = ap (λ s. s.finalizers) (sym e)
plain_config_maps x (inr (inl e)) = ap (λ s. s.finalizers) (sym e)
plain_config_maps x (inr (inr (inl e))) = ap (λ s. s.finalizers) (sym e)
plain_config_maps x (inr (inr (inr e))) = absurd e

world_config_maps-IsFree :
    IsFree (λ cm. cm.meta) shared "default" shared_targets (config_map_in world)
world_config_maps-IsFree k x there outside old =
    plain_config_maps x (In-find (λ cm. cm.meta) k world.config_maps x there)

handle-refines_secrets_example :
    (items : List Secret) × IsSources
      (λ s. s.meta)
      (within "default")
      is_source_secret
      items
      (secret_in world)
    × ((k : Key)
        → secret_in (handle memory shared world).1 k
          ≡ expected
              (λ s. s.meta)
              (λ s ns. copy_secret s ns "default" "shared")
              overwrite_secret
              (stale (λ s. s.meta) shared "default")
              items
              shared_targets
              (secret_in world)
              k)
unfolding is_enabled get_target_namespaces candidates filter_namespaces is_marked mark
    source_namespace lookup insert contains_string list_options
handle-refines_secrets_example =
    handle-refines_secrets memory-IsLawful memory_secrets-IsReliable
      memory_config_maps-IsReliable.list_ok memory_secrets-IsWritable shared (within "default") refl
      refl refl refl world shared_targets refl world_secrets-IsFree

handle-again_secrets_example :
    secret_in (handle memory shared (handle memory shared world).1).1 (at "prod" "db")
    ≡ secret_in (handle memory shared world).1 (at "prod" "db")
unfolding is_enabled get_target_namespaces candidates filter_namespaces is_marked mark
    source_namespace lookup insert contains_string list_options
handle-again_secrets_example =
    handle-again_secrets memory-IsLawful memory_secrets-IsReliable
      memory_config_maps-IsReliable.list_ok memory_secrets-IsWritable shared (within "default") refl
      refl refl refl world shared_targets refl refl world_secrets-IsFree (at "prod" "db")

handle-refines_config_maps_example :
    (items : List ConfigMap) × IsSources
      (λ cm. cm.meta)
      (within "default")
      is_source_config_map
      items
      (config_map_in world)
    × ((k : Key)
        → config_map_in (handle memory shared world).1 k
          ≡ expected
              (λ cm. cm.meta)
              (λ cm ns. copy_config_map cm ns "default" "shared")
              overwrite_config_map
              (stale (λ cm. cm.meta) shared "default")
              items
              shared_targets
              (config_map_in world)
              k)
unfolding is_enabled get_target_namespaces candidates filter_namespaces is_marked mark
    source_namespace lookup insert contains_string list_options
handle-refines_config_maps_example =
    handle-refines_config_maps memory-IsLawful memory_secrets-IsReliable.list_ok
      memory_config_maps-IsReliable memory_config_maps-IsWritable shared (within "default") refl
      refl refl refl world shared_targets refl world_config_maps-IsFree

handle-again_config_maps_example :
    config_map_in (handle memory shared (handle memory shared world).1).1 (at "prod" "app")
    ≡ config_map_in (handle memory shared world).1 (at "prod" "app")
unfolding is_enabled get_target_namespaces candidates filter_namespaces is_marked mark
    source_namespace lookup insert contains_string list_options
handle-again_config_maps_example =
    handle-again_config_maps memory-IsLawful memory_secrets-IsReliable.list_ok
      memory_config_maps-IsReliable memory_config_maps-IsWritable shared (within "default") refl
      refl refl refl world shared_targets refl refl world_config_maps-IsFree (at "prod" "app")

-- The ConfigSync is new.
abbrev new_world : Objects
new_world = record world { config_syncs = fresh ∷ [] }

reconcile_twice-refines_secrets_example :
    (secret_in (reconcile memory (at "" "shared") new_world).1 ≡ secret_in new_world)
    × ((items : List Secret) × IsSources
          (λ s. s.meta)
          (within "default")
          is_source_secret
          items
          (secret_in new_world)
        × ((k : Key)
            → secret_in
                (reconcile memory
                  (at "" "shared")
                  (reconcile memory (at "" "shared") new_world).1).1
                k
              ≡ expected
                  (λ s. s.meta)
                  (λ s ns. copy_secret s ns "default" "shared")
                  overwrite_secret
                  (stale (λ s. s.meta) fresh "default")
                  items
                  shared_targets
                  (secret_in new_world)
                  k))
unfolding is_enabled get_target_namespaces candidates filter_namespaces is_marked mark
    source_namespace lookup insert contains_string list_options find
reconcile_twice-refines_secrets_example =
    reconcile_twice-refines_secrets memory-IsLawful memory_secrets-IsReliable
      memory_config_maps-IsReliable.list_ok memory_secrets-IsWritable memory_config_syncs-IsStore
      memory_config_syncs-IsWritable (at "" "shared") fresh (within "default") new_world
      shared_targets refl refl refl refl refl refl world_secrets-IsFree

reconcile_twice-refines_config_maps_example :
    (config_map_in (reconcile memory (at "" "shared") new_world).1 ≡ config_map_in new_world)
    × ((items : List ConfigMap) × IsSources
          (λ cm. cm.meta)
          (within "default")
          is_source_config_map
          items
          (config_map_in new_world)
        × ((k : Key)
            → config_map_in
                (reconcile memory
                  (at "" "shared")
                  (reconcile memory (at "" "shared") new_world).1).1
                k
              ≡ expected
                  (λ cm. cm.meta)
                  (λ cm ns. copy_config_map cm ns "default" "shared")
                  overwrite_config_map
                  (stale (λ cm. cm.meta) fresh "default")
                  items
                  shared_targets
                  (config_map_in new_world)
                  k))
unfolding is_enabled get_target_namespaces candidates filter_namespaces is_marked mark
    source_namespace lookup insert contains_string list_options find
reconcile_twice-refines_config_maps_example =
    reconcile_twice-refines_config_maps memory-IsLawful memory_secrets-IsReliable.list_ok
      memory_config_maps-IsReliable memory_config_maps-IsWritable memory_config_syncs-IsStore
      memory_config_syncs-IsWritable (at "" "shared") fresh (within "default") new_world
      shared_targets refl refl refl refl refl refl world_config_maps-IsFree

-- The copies of a ConfigSync that is being deleted.
abbrev doomed_world : Objects
doomed_world = record world {
  secrets = db ∷ secret_with "prod" "db" shared_labels ∷ [];
  config_maps = app ∷ config_map_with "prod" "app" shared_labels ∷ [];
}

doomed_secrets-plain : (x : Secret) → In x doomed_world.secrets → x.finalizers ≡ []
doomed_secrets-plain x (inl e) = ap (λ s. s.finalizers) (sym e)
doomed_secrets-plain x (inr (inl e)) = ap (λ s. s.finalizers) (sym e)
doomed_secrets-plain x (inr (inr e)) = absurd e

doomed_config_maps-plain : (x : ConfigMap) → In x doomed_world.config_maps → x.finalizers ≡ []
doomed_config_maps-plain x (inl e) = ap (λ s. s.finalizers) (sym e)
doomed_config_maps-plain x (inr (inl e)) = ap (λ s. s.finalizers) (sym e)
doomed_config_maps-plain x (inr (inr e)) = absurd e

shared_targets-named : (t : String) → In t shared_targets → t ≢ ""
shared_targets-named t (inl e) f =
    let same : ◌≡◌ {A = String} "qa" "" = e ∙ f in absurd (ground (arith, eq_iff "qa" ""))
shared_targets-named t (inr (inl e)) f =
    let same : ◌≡◌ {A = String} "prod" "" = e ∙ f in absurd (ground (arith, eq_iff "prod" ""))
shared_targets-named t (inr (inr e)) f = absurd e

handle-withdraws_secrets_example :
    secret_in (handle memory doomed doomed_world).1 (at "prod" "db")
    ≡ withdrawn
        (λ s. is_owned "default" "shared" s.labels)
        shared_targets
        (secret_in doomed_world)
        (at "prod" "db")
unfolding is_enabled get_target_namespaces candidates filter_namespaces is_marked mark
    source_namespace lookup insert contains_string
handle-withdraws_secrets_example =
    handle-withdraws_secrets memory doomed 5 refl refl doomed_world shared_targets refl
      memory-IsLawful shared_targets-named memory_secrets-IsReliable memory_secrets-IsWritable refl
      (λ k x there owned.
        doomed_secrets-plain x (In-find (λ s. s.meta) k doomed_world.secrets x there))
      (at "prod" "db")

handle-withdraws_config_maps_example :
    config_map_in (handle memory doomed doomed_world).1 (at "prod" "app")
    ≡ withdrawn
        (λ cm. is_owned "default" "shared" cm.labels)
        shared_targets
        (config_map_in doomed_world)
        (at "prod" "app")
unfolding is_enabled get_target_namespaces candidates filter_namespaces is_marked mark
    source_namespace lookup insert contains_string
handle-withdraws_config_maps_example =
    handle-withdraws_config_maps memory doomed 5 refl refl doomed_world shared_targets refl
      memory-IsLawful shared_targets-named memory_config_maps-IsReliable
      memory_config_maps-IsWritable refl
      (λ k x there owned.
        doomed_config_maps-plain x (In-find (λ cm. cm.meta) k doomed_world.config_maps x there))
      (at "prod" "app")

old-outside : ¬ In {A = String} "old" shared_targets
old-outside m = ground (arith, eq_iff "qa" "old", eq_iff "prod" "old")

handle-misses_secret_example :
    secret_in (handle memory doomed world).1 (at "old" "db") ≡ some left_over
unfolding get_target_namespaces candidates filter_namespaces is_marked mark source_namespace lookup
    insert contains_string find
handle-misses_secret_example =
    handle-misses_secret memory doomed 5 refl refl world shared_targets refl memory-IsLawful
      shared_targets-named left_over old-outside refl
