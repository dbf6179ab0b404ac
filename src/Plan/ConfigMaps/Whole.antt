-- ===== src/Plan/ConfigMaps/Whole.antt =====
-- A reconciliation and the config maps of the cluster, against the plan.
use cicd_tools.Prelude.{String, ◌≡◌, ◌∙◌, true, none, List, ok, select}
use cicd_tools.Types.{Key, ConfigMap, ConfigSync}
use cicd_tools.Cluster.{Client, ListOptions, everything}
use cicd_tools.Cluster.Laws.{CanList, IsLawful, IsReliable, IsWritable}
use cicd_tools.Sources.{is_source_config_map, list_options}
use cicd_tools.Copies.{copy_config_map, overwrite_config_map}
use cicd_tools.Cleanup.{is_enabled}
use cicd_tools.Reconcile.{handle}
use cicd_tools.Plan.{expected}
use cicd_tools.Plan.Copiers.{config_map-IsCopier}
use cicd_tools.Plan.Sources.{
  IsSources, IsSources-later, list_options-namespace, source_namespace-named, listed-IsSources,
}
use cicd_tools.Labels.{config_sync_finalizer}
use cicd_tools.Slices.{contains_string}
use cicd_tools.Namespaces.{source_namespace, get_target_namespaces}
use cicd_tools.Plan.Pruning.{namespace-stored}
use cicd_tools.Plan.Assembly.{stale, IsFree}
use cicd_tools.Plan.Cleaning.{config_maps-cleaned}
use cicd_tools.Plan.Whole.{IsQuiet, handle-planned}
use cicd_tools.Plan.Again.{expected_idem, source-same, later-IsFree}
use cicd_tools.Namespaces.Targets.{get_target_namespaces-IsOpen}
use cicd_tools.Plan.ConfigMaps.{single, round-at}

module _ {c : Client} (L : IsLawful c) where
  open L use {config_map_at}

  pub config_map-IsQuiet : IsQuiet c config_map_at
  config_map-IsQuiet = record {
    list_namespaces = λ w. (L.namespaces_list everything w).1;
    update_status = λ cs w. (L.update_status cs w).1;
    now = λ w. (L.now w).1;
  }

module _ {c : Client} (L : IsLawful c) (RS : CanList c.secrets)
    (RC : IsReliable c.config_maps (λ cm. cm.meta) L.config_map_at)
    (WC : IsWritable c.config_maps (λ cm. cm.meta) L.config_map_at) (cs : ConfigSync)
    (o : ListOptions) (live : cs.deletion_timestamp ≡ none)
    (ready : contains_string cs.finalizers config_sync_finalizer ≡ true)
    (enabled : is_enabled cs.spec.sync_config_maps ≡ true)
    (valid : list_options c.as_selector (source_namespace cs.spec) cs.spec.config_map_selector
      ≡ ok o)
    (w : c.World) (targets : List String)
    (found : (get_target_namespaces c cs.spec (source_namespace cs.spec) w).0 ≡ ok targets) where
  open L use {config_map_at}

  abbrev source : String
  source = source_namespace cs.spec

  refined :
      IsFree (λ cm. cm.meta) cs source targets (config_map_at w)
      → (items : List ConfigMap)
      → IsSources (λ cm. cm.meta) o is_source_config_map items (config_map_at w)
      → (k : Key)
      → config_map_at (handle c cs w).1 k
        ≡ expected
            (λ cm. cm.meta)
            (λ cm ns. copy_config_map cm ns source cs.name)
            overwrite_config_map
            (stale (λ cm. cm.meta) cs source)
            items
            targets
            (config_map_at w)
            k
  refined free items sources =
      handle-planned (config_map-IsCopier source cs.name) (config_map-IsQuiet L) cs items w targets
        live ready found (namespace-stored L.config_maps WC w)
        (config_maps-cleaned L RS RC cs source targets w WC free)
        (round-at L RC WC cs source (source_namespace-named cs) o enabled valid items
          (config_map_at w) sources)

  -- With a lawful client whose calls for config maps succeed, and whose secrets can be listed, the
  -- reconciliation of a live ConfigSync with the finalizer, whose selector is valid and which copies
  -- config maps, makes the store of config maps what the plan says, once it has its targets. The
  -- sources of the plan are the stored config maps that the options of the list call ask for and
  -- that are sources. Copies outside the targets must not have finalizers.
  pub handle-refines_config_maps :
      IsFree (λ cm. cm.meta) cs (source_namespace cs.spec) targets (config_map_at w)
      → (items : List ConfigMap) × IsSources
          (λ cm. cm.meta)
          o
          is_source_config_map
          items
          (config_map_at w)
        × ((k : Key)
            → config_map_at (handle c cs w).1 k
              ≡ expected
                  (λ cm. cm.meta)
                  (λ cm ns. copy_config_map cm ns (source_namespace cs.spec) cs.name)
                  overwrite_config_map
                  (stale (λ cm. cm.meta) cs (source_namespace cs.spec))
                  items
                  targets
                  (config_map_at w)
                  k)
  handle-refines_config_maps free =
      let (read, listed) = RC.list_ok o w in
      let sources = listed-IsSources L.config_maps o is_source_config_map w read listed in
      (
        select is_source_config_map read,
        sources,
        refined free (select is_source_config_map read) sources,
      )

module _ {c : Client} (L : IsLawful c) (RS : CanList c.secrets)
    (RC : IsReliable c.config_maps (λ cm. cm.meta) L.config_map_at)
    (WC : IsWritable c.config_maps (λ cm. cm.meta) L.config_map_at) (cs : ConfigSync)
    (o : ListOptions) (live : cs.deletion_timestamp ≡ none)
    (ready : contains_string cs.finalizers config_sync_finalizer ≡ true)
    (enabled : is_enabled cs.spec.sync_config_maps ≡ true)
    (valid : list_options c.as_selector (source_namespace cs.spec) cs.spec.config_map_selector
      ≡ ok o) where
  open L use {config_map_at}

  -- Reconciling again changes nothing: under the conditions of the plan, and with the same targets
  -- the second time, the store of config maps after a second reconciliation is that after the first.
  pub handle-again_config_maps :
      (w : c.World) (targets : List String)
      → (get_target_namespaces c cs.spec (source_namespace cs.spec) w).0 ≡ ok targets
      → (get_target_namespaces c cs.spec (source_namespace cs.spec) (handle c cs w).1).0
        ≡ ok targets
      → IsFree (λ cm. cm.meta) cs (source_namespace cs.spec) targets (config_map_at w)
      → (k : Key)
      → config_map_at (handle c cs (handle c cs w).1).1 k ≡ config_map_at (handle c cs w).1 k
  handle-again_config_maps w targets found again free k =
      let source = source_namespace cs.spec in
      let v = (handle c cs w).1 in
      let (items, sources, planned) =
        handle-refines_config_maps L RS RC WC cs o live ready enabled valid w targets found free in
      let keyed = namespace-stored L.config_maps WC in
      let same =
        source-same (config_map-IsCopier source cs.name) cs source items targets (config_map_at w)
          (config_map_at v) planned
          (λ t m. (get_target_namespaces-IsOpen c cs.spec source w targets found t m).1)
          (keyed w) in
      let free' =
        later-IsFree (config_map-IsCopier source cs.name) cs source items targets (config_map_at w)
          (config_map_at v) planned (keyed v) in
      let sources' =
        IsSources-later (λ cm. cm.meta) o is_source_config_map
          (single L RC WC cs source (source_namespace-named cs) o enabled valid) items
          (config_map_at w) (config_map_at v) sources
          (λ j e.
            same j (e ∙ list_options-namespace c source cs.spec.config_map_selector o valid)) in
      refined L RS RC WC cs o live ready enabled valid v targets again free' items sources' k
      ∙ expected_idem (config_map-IsCopier source cs.name) cs source items targets (config_map_at w)
          (config_map_at v) planned k
