-- ===== src/Removal/Secrets.antt =====
-- The copies of secrets that the three deletions are about.
use cicd_tools.Prelude.{String, ◌≡◌, refl, ap, ◌∙◌, inl, Bool, true, false, none, List, []}
use cicd_tools.Prelude.{In, arith, eq_iff, ok, if◌then◌else◌}
use cicd_tools.Dict.Laws.{lookup-nil}
use cicd_tools.Types.{Secret, ConfigMap, ConfigSync}
use cicd_tools.Cluster.{Client, everything}
use cicd_tools.Cluster.Laws.{IsLawful, IsReliable, key_of}
use cicd_tools.Labels.{is_owned}
use cicd_tools.Slices.Laws.{contains_string_iff}
use cicd_tools.Namespaces.{source_namespace, mark, get_target_namespaces}
use cicd_tools.Namespaces.Targets.{lookup-mark, IsOpen}
use cicd_tools.Cleanup.{
  is_enabled, sweep, should_delete_from, is_left_over, is_copy_of, delete_copies, cleanup_targets,
  cleanup_synced_resources, cleanup_removed_namespaces, delete_synced_secrets,
}
use cicd_tools.Reconcile.Steps.{targets-Keeps}
use cicd_tools.Reconcile.Safety.Secrets.{HoldsSecret, secret-Calls}
use cicd_tools.Shield
use cicd_tools.Removal

is_left_over_of :
    (cs : ConfigSync) (s : Secret) (source : String) (targets : List String)
    → is_owned source cs.name s.labels ≡ true
    → IsOpen source s.namespace
    → ¬ In s.namespace targets
    → is_left_over cs source (mark targets []) s.meta ≡ true
unfolding is_left_over should_delete_from
is_left_over_of cs s source targets owned outside gone = ground (
  arith,
  lookup-mark targets [] s.namespace,
  lookup-nil {V = Bool} s.namespace,
  contains_string_iff targets s.namespace,
  eq_iff s.namespace source,
)

-- The deletions of config maps leave the secrets alone.
module _ {c : Client} (L : IsLawful c) (doomed : ConfigMap → Bool) where
  pub sweep_if-rest :
      (test : Bool) (targets : List String) (w : c.World)
      → L.secret_at (if test then sweep c.config_maps doomed targets w else w) ≡ L.secret_at w
  sweep_if-rest true targets w = Shield.rest-sweep L.config_maps doomed targets w
  sweep_if-rest false targets w = refl

module _ {c : Client} (L : IsLawful c) (D : IsReliable c.secrets (λ s. s.meta) L.secret_at)
    (s : Secret) (free : s.finalizers ≡ []) where
  open L use {secret_at, secrets, config_maps}

  -- The cascade: with a reliable lawful client, after the clean-up for a source secret that is gone,
  -- no secret of its name with its namespace in the label `synced-from`, and without finalizers, is
  -- left in any namespace.
  pub delete_synced_secrets-removes :
      (source name : String) (w : c.World)
      → is_copy_of source name s.meta ≡ true
      → HoldsSecret L s w
      → secret_at (delete_synced_secrets c source name w).1 (key_of s.meta) ≡ none
  unfolding delete_synced_secrets
  delete_synced_secrets-removes source name w hit there =
      let (items, listed) = D.list_ok everything w in
      rw listed (
        Removal.listed-removes secrets D s free (λ x. is_copy_of source name x.meta) everything w
          items listed hit refl (inl there))

  -- With a reliable lawful client, no copied secret of a ConfigSync is left in a namespace that is no
  -- target any more after its clean-up of removed namespaces, unless that is its source namespace or
  -- a system namespace, or the copy has finalizers of its own.
  pub cleanup_removed_namespaces-removes_secret :
      (cs : ConfigSync) (source : String) (targets : List String) (w : c.World)
      → is_owned source cs.name s.labels ≡ true
      → IsOpen source s.namespace
      → ¬ In s.namespace targets
      → HoldsSecret L s w
      → secret_at (cleanup_removed_namespaces c cs source targets w).1 (key_of s.meta) ≡ none
  unfolding cleanup_removed_namespaces
  cleanup_removed_namespaces-removes_secret cs source targets w owned outside gone there =
      let doomed = is_left_over cs source (mark targets []) in
      let (items, listed) = D.list_ok everything w in
      let removed =
        Removal.listed-removes secrets D s free (λ x. doomed x.meta) everything w items listed
          (is_left_over_of cs s source targets owned outside gone) refl (inl there) in
      rw listed (
        ap (λ g. g (key_of s.meta))
          (Shield.rest-list_then config_maps (λ x. doomed x.meta) everything _)
        ∙ removed)

  -- With a reliable lawful client, the clean-up of a ConfigSync that is being deleted, if its target
  -- namespaces can be listed and it copies secrets, leaves none of its copied secrets without finalizers in
  -- any of these namespaces.
  pub cleanup_synced_resources-removes_secret :
      (cs : ConfigSync) (targets : List String) (w : c.World)
      → is_enabled cs.spec.sync_secrets ≡ true
      → (get_target_namespaces c cs.spec (source_namespace cs.spec) w).0 ≡ ok targets
      → In s.namespace targets
      → is_owned (source_namespace cs.spec) cs.name s.labels ≡ true
      → HoldsSecret L s w
      → secret_at (cleanup_synced_resources c cs w).1 (key_of s.meta) ≡ none
  unfolding cleanup_synced_resources cleanup_targets delete_copies
  cleanup_synced_resources-removes_secret cs targets w enabled found m owned there =
      let source = source_namespace cs.spec in
      let v = (get_target_namespaces c cs.spec source w).1 in
      let kept = targets-Keeps (secret-Calls L s) cs.spec source w there in
      let gone =
        Removal.sweep-removes secrets D s free (λ x. is_owned source cs.name x.labels) targets v
          owned m (inl kept) in
      rw (found, enabled) (ap (λ g. g (key_of s.meta)) (sweep_if-rest L _ _ targets _) ∙ gone)
