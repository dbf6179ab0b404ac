-- ===== src/Plan/ConfigMaps.antt =====
-- The step "Sync ConfigMaps" of one round, against the plan.
pub mod Whole
pub mod Fresh
use cicd_tools.Prelude.{
  String, ℕ, ◌≡◌, refl, sym, ap, ◌∙◌, ◌≢◌, true, Option, none, List, ◌==◌, if◌then◌else◌, ok,
  select,
}
use cicd_tools.Types.{Key, ConfigMap, ConfigSync, NamespaceStatus}
use cicd_tools.Cluster.{Client, ListOptions, everything}
use cicd_tools.Cluster.Laws.{IsLawful, IsReliable, IsWritable}
use cicd_tools.Sources.{is_source_config_map, list_options, list_source_config_maps}
use cicd_tools.Copies.{copy_config_map, overwrite_config_map, sync_config_map}
use cicd_tools.Cleanup.{is_enabled}
use cicd_tools.Reconcile.{
  started, config_maps_listed, secrets_phase, config_maps_phase, sync_namespace, handle,
}
use cicd_tools.Reconcile.Steps.{namespace-secrets_phase}
use cicd_tools.Plan.{named, put_named, expected}
use cicd_tools.Plan.Round.{each-planned}
use cicd_tools.Plan.Copiers.{config_map-IsCopier}
use cicd_tools.Plan.Sources.{
  IsSources, IsSources-AreNamed, list_options-namespace, source_namespace-named, named-sources,
  listed-IsSources,
}
use cicd_tools.Plan.Loop.{IsRound}
use cicd_tools.Labels.{config_sync_finalizer}
use cicd_tools.Slices.{contains_string}
use cicd_tools.Namespaces.{source_namespace, get_target_namespaces}
use cicd_tools.Plan.Pruning.{key-stored}
use cicd_tools.Plan.Assembly.{stale, IsFree}
use cicd_tools.Plan.Cleaning.{config_maps-cleaned}
use cicd_tools.Plan.Whole.{IsQuiet, handle-planned}
use cicd_tools.Plan.Untouched.{secrets_phase-same}

module _ {c : Client} (L : IsLawful c)
    (RC : IsReliable c.config_maps (λ cm. cm.meta) L.config_map_at)
    (WC : IsWritable c.config_maps (λ cm. cm.meta) L.config_map_at) (cs : ConfigSync)
    (source : String) (named_source : source ≢ "") (o : ListOptions)
    (enabled : is_enabled cs.spec.sync_config_maps ≡ true)
    (valid : list_options c.as_selector source cs.spec.config_map_selector ≡ ok o) where
  open L use {config_map_at}

  pub single : o.namespace ≢ ""
  single e =
      named_source (sym (list_options-namespace c source cs.spec.config_map_selector o valid) ∙ e)

  abbrev copy : ConfigMap → String → ConfigMap
  copy cm ns = copy_config_map cm ns source cs.name

  read-listed :
      (w : c.World) (items : List ConfigMap)
      → (c.config_maps.list o w).0 ≡ ok items
      → list_source_config_maps c source cs.spec.config_map_selector w
        ≡ (ok (select is_source_config_map items), (c.config_maps.list o w).1)
  unfolding list_source_config_maps
  read-listed w items listed = rw (valid, list_source_config_maps) (rw listed refl)

  phase-at :
      (st : NamespaceStatus) (n : ℕ) (w : c.World) (items : List ConfigMap)
      → (c.config_maps.list o w).0 ≡ ok items
      → (k : Key)
      → config_map_at (config_maps_phase c cs source st n w).2 k ≡ (
          if st.namespace == k.namespace
          then put_named
              (λ cm. cm.meta)
              copy
              overwrite_config_map
              (named (λ cm. cm.meta) k.name (select is_source_config_map items))
              k.namespace
              (config_map_at w k)
          else config_map_at w k)
  unfolding config_maps_listed sync_config_map config_maps_phase
  phase-at st n w items listed k =
      let sources = listed-IsSources L.config_maps o is_source_config_map w items listed in
      let distinct =
        IsSources-AreNamed (λ cm. cm.meta) o is_source_config_map single
          (select is_source_config_map items) (config_map_at w) sources in
      rw (enabled, config_maps_phase)
        (rw (read-listed w items listed) (
          each-planned L.config_maps WC (config_map-IsCopier source cs.name) st.namespace
            (select is_source_config_map items) 0 (c.config_maps.list o w).1 k distinct
          ∙ ap
              (λ f.
                if st.namespace == k.namespace
                then put_named (λ cm. cm.meta) copy overwrite_config_map
                    (named (λ cm. cm.meta) k.name (select is_source_config_map items)) k.namespace
                    (f k)
                else f k)
              (L.config_maps.list_at o w)))

  -- One round, with the sources that were there at the start.
  pub round-at :
      (items : List ConfigMap) (store : Key → Option ConfigMap)
      → IsSources (λ cm. cm.meta) o is_source_config_map items store
      → IsRound (config_map-IsCopier source cs.name) c cs source config_map_at items store
  unfolding sync_namespace
  round-at items store sources t p w apart agree k =
      let first = secrets_phase c cs source (started t) p.total_secrets w in
      let second = config_maps_phase c cs source first.0 p.total_config_maps first.2 in
      let kept = secrets_phase-same L cs source (started t) p.total_secrets w in
      let (read, listed) = RC.list_ok o first.2 in
      let fresh = listed-IsSources L.config_maps o is_source_config_map first.2 read listed in
      let same =
        named-sources (λ cm. cm.meta) o is_source_config_map single
          (select is_source_config_map read) items (config_map_at first.2) store fresh sources
          (λ j e.
            ap (λ f. f j) kept
            ∙ agree j (e ∙ list_options-namespace c source cs.spec.config_map_selector o valid))
          k.name in
      ap (λ f. f k) ((L.now second.2).1)
      ∙ phase-at first.0 p.total_config_maps first.2 read listed k
      ∙ ap
          (λ n.
            if n == k.namespace
            then put_named (λ cm. cm.meta) copy overwrite_config_map
                (named (λ cm. cm.meta) k.name (select is_source_config_map read)) k.namespace
                (config_map_at first.2 k)
            else config_map_at first.2 k)
          (namespace-secrets_phase c cs source (started t) p.total_secrets w)
      ∙ ap
          (λ x.
            if t == k.namespace
            then put_named (λ cm. cm.meta) copy overwrite_config_map x k.namespace
                (config_map_at first.2 k)
            else config_map_at first.2 k)
          same
      ∙ ap
          (λ f.
            if t == k.namespace
            then put_named (λ cm. cm.meta) copy overwrite_config_map
                (named (λ cm. cm.meta) k.name items) k.namespace (f k)
            else f k)
          kept
