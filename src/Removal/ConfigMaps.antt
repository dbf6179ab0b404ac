-- ===== src/Removal/ConfigMaps.antt =====
-- The copies of config maps that the three deletions are about.
use cicd_tools.Prelude.{String, ◌≡◌, refl, ap, ◌∙◌, inl, Bool, true, false, none, List, []}
use cicd_tools.Prelude.{In, arith, eq_iff, ok, if◌then◌else◌}
use cicd_tools.Dict.Laws.{lookup-nil}
use cicd_tools.Types.{Secret, ConfigMap, ConfigSync}
use cicd_tools.Cluster.{Client, everything}
use cicd_tools.Cluster.Laws.{IsLawful, IsReliable, key_of}
use cicd_tools.Labels.{is_owned}
use cicd_tools.Slices.Laws.{contains_string_iff}
use cicd_tools.Namespaces.{source_namespace, mark, get_target_namespaces}
use cicd_tools.Namespaces.Targets.{lookup-mark, IsOpen}
use cicd_tools.Cleanup.{
  is_enabled, sweep, delete_where, should_delete_from, is_left_over, is_copy_of, delete_copies,
  cleanup_targets, cleanup_synced_resources, cleanup_removed_namespaces, delete_synced_config_maps,
}
use cicd_tools.Reconcile.Steps.{targets-Keeps}
use cicd_tools.Reconcile.Safety.ConfigMaps.{HoldsConfigMap, config_map-Calls}
use cicd_tools.Shield
use cicd_tools.Removal

is_left_over_of :
    (cs : ConfigSync) (cm : ConfigMap) (source : String) (targets : List String)
    → is_owned source cs.name cm.labels ≡ true
    → IsOpen source cm.namespace
    → ¬ In cm.namespace targets
    → is_left_over cs source (mark targets []) cm.meta ≡ true
unfolding is_left_over should_delete_from
is_left_over_of cs cm source targets owned outside gone = ground (
  arith,
  lookup-mark targets [] cm.namespace,
  lookup-nil {V = Bool} cm.namespace,
  contains_string_iff targets cm.namespace,
  eq_iff cm.namespace source,
)

-- The deletions of secrets leave the config maps alone.
module _ {c : Client} (L : IsLawful c) (doomed : Secret → Bool) where
  pub sweep_if-rest :
      (test : Bool) (targets : List String) (w : c.World)
      → L.config_map_at (if test then sweep c.secrets doomed targets w else w) ≡ L.config_map_at w
  sweep_if-rest true targets w = Shield.rest-sweep L.secrets doomed targets w
  sweep_if-rest false targets w = refl

module _ {c : Client} (L : IsLawful c) (S : IsReliable c.secrets (λ s. s.meta) L.secret_at)
    (D : IsReliable c.config_maps (λ cm. cm.meta) L.config_map_at) (cm : ConfigMap)
    (free : cm.finalizers ≡ []) where
  open L use {config_map_at, secrets, config_maps}

  -- The cascade: with a reliable lawful client, after the clean-up for a source config map that is
  -- gone, no config map of its name with its namespace in the label `synced-from`, and without
  -- finalizers, is left in any namespace.
  pub delete_synced_config_maps-removes :
      (source name : String) (w : c.World)
      → is_copy_of source name cm.meta ≡ true
      → HoldsConfigMap L cm w
      → config_map_at (delete_synced_config_maps c source name w).1 (key_of cm.meta) ≡ none
  unfolding delete_synced_config_maps
  delete_synced_config_maps-removes source name w hit there =
      let (items, listed) = D.list_ok everything w in
      rw listed (
        Removal.listed-removes config_maps D cm free (λ x. is_copy_of source name x.meta) everything
          w items listed hit refl (inl there))

  -- With a reliable lawful client, no copied config map of a ConfigSync is left in a namespace that
  -- is no target any more after its clean-up of removed namespaces, unless that is its source
  -- namespace or a system namespace, or the copy has finalizers of its own.
  pub cleanup_removed_namespaces-removes_config_map :
      (cs : ConfigSync) (source : String) (targets : List String) (w : c.World)
      → is_owned source cs.name cm.labels ≡ true
      → IsOpen source cm.namespace
      → ¬ In cm.namespace targets
      → HoldsConfigMap L cm w
      → config_map_at (cleanup_removed_namespaces c cs source targets w).1 (key_of cm.meta) ≡ none
  unfolding cleanup_removed_namespaces
  cleanup_removed_namespaces-removes_config_map cs source targets w owned outside gone there =
      let doomed = is_left_over cs source (mark targets []) in
      let (others, first) = S.list_ok everything w in
      let v = delete_where c.secrets (λ x. doomed x.meta) others (c.secrets.list everything w).1 in
      let same : config_map_at v ≡ config_map_at w =
        Shield.rest-delete_where secrets (λ x. doomed x.meta) others _
        ∙ secrets.list_rest everything w in
      let kept = ap (λ f. f (key_of cm.meta)) same ∙ there in
      let (items, listed) = D.list_ok everything v in
      rw (first, listed)
        (Removal.listed-removes config_maps D cm free (λ x. doomed x.meta) everything v items listed
          (is_left_over_of cs cm source targets owned outside gone) refl (inl kept))

  -- With a reliable lawful client, the clean-up of a ConfigSync that is being deleted, if its target
  -- namespaces can be listed and it copies config maps, leaves none of its copied config maps without
  -- finalizers in any of these namespaces.
  pub cleanup_synced_resources-removes_config_map :
      (cs : ConfigSync) (targets : List String) (w : c.World)
      → is_enabled cs.spec.sync_config_maps ≡ true
      → (get_target_namespaces c cs.spec (source_namespace cs.spec) w).0 ≡ ok targets
      → In cm.namespace targets
      → is_owned (source_namespace cs.spec) cs.name cm.labels ≡ true
      → HoldsConfigMap L cm w
      → config_map_at (cleanup_synced_resources c cs w).1 (key_of cm.meta) ≡ none
  unfolding cleanup_synced_resources cleanup_targets delete_copies
  cleanup_synced_resources-removes_config_map cs targets w enabled found m owned there =
      let source = source_namespace cs.spec in
      let v = (get_target_namespaces c cs.spec source w).1 in
      let kept = targets-Keeps (config_map-Calls L cm) cs.spec source w there in
      let doomed : Secret → Bool = λ s. is_owned source cs.name s.labels in
      let u = if is_enabled cs.spec.sync_secrets then sweep c.secrets doomed targets v else v in
      let still = ap (λ g. g (key_of cm.meta)) (sweep_if-rest L doomed _ targets v) ∙ kept in
      rw (found, enabled)
        (Removal.sweep-removes config_maps D cm free (λ x. is_owned source cs.name x.labels) targets
          u owned m (inl still))
