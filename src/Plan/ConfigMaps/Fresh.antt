-- ===== src/Plan/ConfigMaps/Fresh.antt =====
-- A new ConfigSync and the config maps of the cluster.
use cicd_tools.Prelude.{◌≡◌, sym, ap, ◌∙◌, subst, true, false, none, some, List, ok, Option, String}
use cicd_tools.Types.{Key, ConfigMap, ConfigSync}
use cicd_tools.Cluster.{Client, ListOptions}
use cicd_tools.Cluster.Laws.{CanList, IsStore, IsLawful, IsReliable, IsWritable}
use cicd_tools.Labels.{config_sync_finalizer}
use cicd_tools.Slices.{contains_string}
use cicd_tools.Namespaces.{source_namespace, get_target_namespaces}
use cicd_tools.Sources.{is_source_config_map, list_options}
use cicd_tools.Copies.{copy_config_map, overwrite_config_map}
use cicd_tools.Cleanup.{is_enabled}
use cicd_tools.Reconcile.{reconcile}
use cicd_tools.Plan.{expected}
use cicd_tools.Plan.Sources.{IsSources}
use cicd_tools.Plan.Assembly.{stale, IsFree}
use cicd_tools.Plan.Fresh.{ready, contains_string-last, reconcile-stored, reconcile-ready}
use cicd_tools.Plan.ConfigMaps.Whole.{handle-refines_config_maps}

module _ {X : Type 0} {c : Client} (L : IsLawful c) (RS : CanList c.secrets)
    (RC : IsReliable c.config_maps (λ cm. cm.meta) L.config_map_at)
    (WC : IsWritable c.config_maps (λ cm. cm.meta) L.config_map_at)
    {sync_at : c.World → Key → Option ConfigSync} {rest : c.World → X}
    (K : IsStore c.config_syncs (λ cs. cs.meta) sync_at rest)
    (WK : IsWritable c.config_syncs (λ cs. cs.meta) sync_at) where
  open L use {config_map_at}

  -- Two reconciliations are enough: under the conditions of the plan, and with a store of ConfigSyncs
  -- whose look-ups and updates succeed, the second reconciliation of the request of a stored live
  -- ConfigSync that has no finalizer yet ends with the config maps that the plan says, once it has
  -- its targets; after the first one, the config maps are as before.
  pub reconcile_twice-refines_config_maps :
      (request : Key) (cs : ConfigSync) (o : ListOptions) (w : c.World) (targets : List String)
      → sync_at w request ≡ some cs
      → cs.deletion_timestamp ≡ none
      → contains_string cs.finalizers config_sync_finalizer ≡ false
      → is_enabled cs.spec.sync_config_maps ≡ true
      → list_options c.as_selector (source_namespace cs.spec) cs.spec.config_map_selector ≡ ok o
      → let v = (reconcile c request w).1 in
        (get_target_namespaces c cs.spec
            (source_namespace cs.spec)
            (c.config_syncs.get request v).1).0
          ≡ ok targets
        → IsFree (λ cm. cm.meta) cs (source_namespace cs.spec) targets (config_map_at w)
        → (config_map_at v ≡ config_map_at w)
          × ((items : List ConfigMap) × IsSources
                (λ cm. cm.meta)
                o
                is_source_config_map
                items
                (config_map_at w)
              × ((k : Key)
                  → config_map_at (reconcile c request v).1 k
                    ≡ expected
                        (λ cm. cm.meta)
                        (λ cm ns. copy_config_map cm ns (source_namespace cs.spec) cs.name)
                        overwrite_config_map
                        (stale (λ cm. cm.meta) cs (source_namespace cs.spec))
                        items
                        targets
                        (config_map_at w)
                        k))
  reconcile_twice-refines_config_maps request cs o w targets there live fresh enabled valid found
        free =
      let v = (reconcile c request w).1 in
      let u = (c.config_syncs.get request v).1 in
      let (_, stored, same_world) = reconcile-ready c K WK request cs w there live fresh in
      let first : config_map_at v ≡ config_map_at w =
        ap config_map_at same_world
        ∙ (L.config_syncs_update (ready cs) (c.config_syncs.get request w).1).1
        ∙ (L.config_syncs_get request w).1 in
      let same : config_map_at u ≡ config_map_at w = (L.config_syncs_get request v).1 ∙ first in
      let (items, sources, planned) =
        handle-refines_config_maps L RS RC WC (ready cs) o live
          (contains_string-last cs.finalizers config_sync_finalizer) enabled valid u targets found
          (subst (λ f. IsFree (λ cm. cm.meta) cs (source_namespace cs.spec) targets f) (sym same)
            free) in
      (
        first,
        (
          items,
          subst (λ f. IsSources (λ cm. cm.meta) o is_source_config_map items f) same sources,
          λ k.
              ap (λ z. config_map_at z.1 k) (reconcile-stored c K WK request (ready cs) v stored)
              ∙ planned k
              ∙ ap
                  (λ f.
                    expected (λ cm. cm.meta)
                      (λ cm ns. copy_config_map cm ns (source_namespace cs.spec) cs.name)
                      overwrite_config_map (stale (λ cm. cm.meta) cs (source_namespace cs.spec))
                      items targets f k)
                  same,
        ),
      )
