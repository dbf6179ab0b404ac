-- ===== src/Plan/Deletion.antt =====
-- The reconciliation of a ConfigSync that is being deleted, against the plan.
use cicd_tools.Prelude.{
  subst, arith, eq_iff, ℕ, String, ◌≡◌, refl, sym, ap, ◌∙◌, ◌≢◌, true, some, Bool, List, [], In, ok,
  is_some,
}
use cicd_tools.Prelude.Keeps.{Keeps-bind}
use cicd_tools.Types.{Key, ObjectMeta, Secret, ConfigMap, ConfigSync}
use cicd_tools.Cluster.{Client, within}
use cicd_tools.Cluster.Laws.{key_of, admits, IsLawful, IsReliable, IsWritable}
use cicd_tools.Labels.{is_owned, config_sync_finalizer}
use cicd_tools.Slices.{contains_string}
use cicd_tools.Namespaces.{source_namespace, get_target_namespaces}
use cicd_tools.Cleanup.{sweep, is_enabled, delete_copies, cleanup_targets, cleanup_synced_resources}
use cicd_tools.Reconcile.{finalize, handle}
use cicd_tools.Shield
use cicd_tools.Removal.Secrets
use cicd_tools.Removal.ConfigMaps
use cicd_tools.Plan.{withdrawn}
use cicd_tools.Plan.Whole.{targets-same}
use cicd_tools.Plan.Sweeping.{sweep-at}
use cicd_tools.Plan.Secrets.Whole.{secret-IsQuiet}
use cicd_tools.Plan.ConfigMaps.Whole.{config_map-IsQuiet}

-- What a list call within a namespace asks for.
admits-within :
    (ns : String) (m : ObjectMeta) → ns ≢ "" → admits (within ns) m ≡ true → m.namespace ≡ ns
admits-within ns m named asked = ground (arith, eq_iff ns "", eq_iff m.namespace ns)

module _ (c : Client) (cs : ConfigSync) (date : ℕ) (deleting : cs.deletion_timestamp ≡ some date)
    (ready : contains_string cs.finalizers config_sync_finalizer ≡ true) (w : c.World)
    (targets : List String)
    (found : (get_target_namespaces c cs.spec (source_namespace cs.spec) w).0 ≡ ok targets) where
  abbrev source : String
  source = source_namespace cs.spec

  abbrev chosen : c.World
  chosen = (get_target_namespaces c cs.spec source w).1

  -- What is left is what the deletions leave.
  finalize-same :
      {X : Type 0} (view : c.World → X)
      → ((x : ConfigSync) (u : c.World) → view (c.config_syncs.update x u).1 ≡ view u)
      → view (handle c cs w).1 ≡ view (delete_copies c cs source targets chosen)
  unfolding handle finalize cleanup_synced_resources cleanup_targets
  finalize-same view quiet =
      rw (ap is_some deleting, handle)
        (rw ready (
          rw found (
            Keeps-bind {P = λ u. view u ≡ view (delete_copies c cs source targets chosen)}
              (c.config_syncs.update _) _ (λ u h. quiet _ u ∙ h) (λ _ _ _ u h. h) _ refl)))

  module _ (L : IsLawful c) (named : (t : String) → In t targets → t ≢ "") where
    -- With a lawful client whose calls for secrets succeed, the reconciliation of a ConfigSync that
    -- is being deleted, carries the finalizer and copies secrets removes its own copies from the
    -- namespaces that are its targets at that time, once it has them, and leaves all other secrets
    -- as they are: its own copies in a namespace that is no target any more stay. No target has the
    -- name "", and no copy of its own has finalizers.
    pub handle-withdraws_secrets :
        IsReliable c.secrets (λ s. s.meta) L.secret_at
        → IsWritable c.secrets (λ s. s.meta) L.secret_at
        → is_enabled cs.spec.sync_secrets ≡ true
        → ((k : Key) (s : Secret)
            → L.secret_at w k ≡ some s
            → is_owned (source_namespace cs.spec) cs.name s.labels ≡ true
            → s.finalizers ≡ [])
        → (k : Key)
        → L.secret_at (handle c cs w).1 k
          ≡ withdrawn
              (λ s. is_owned (source_namespace cs.spec) cs.name s.labels)
              targets
              (L.secret_at w)
              k
    unfolding delete_copies withdrawn
    handle-withdraws_secrets RS WS enabled loose k =
        let owned : Secret → Bool = λ s. is_owned source cs.name s.labels in
        let same = targets-same (secret-IsQuiet L) cs source w in
        ap (λ f. f k) (finalize-same L.secret_at (λ x u. (L.config_syncs_update x u).0))
        ∙ rw enabled (
            ap (λ f. f k) (Secrets.sweep_if-rest L _ _ targets _)
            ∙ sweep-at L.secrets RS WS owned k targets chosen named
                (λ x there hit. loose k x (sym (ap (λ f. f k) same) ∙ there) hit)
            ∙ ap (λ f. withdrawn owned targets f k) same)

    -- With a lawful client whose calls for config maps succeed, the reconciliation of a ConfigSync
    -- that is being deleted, carries the finalizer and copies config maps removes its own copies
    -- from the namespaces that are its targets at that time, once it has them, and leaves all other
    -- config maps as they are: its own copies in a namespace that is no target any more stay. No
    -- target has the name "", and no copy of its own has finalizers.
    pub handle-withdraws_config_maps :
        IsReliable c.config_maps (λ cm. cm.meta) L.config_map_at
        → IsWritable c.config_maps (λ cm. cm.meta) L.config_map_at
        → is_enabled cs.spec.sync_config_maps ≡ true
        → ((k : Key) (cm : ConfigMap)
            → L.config_map_at w k ≡ some cm
            → is_owned (source_namespace cs.spec) cs.name cm.labels ≡ true
            → cm.finalizers ≡ [])
        → (k : Key)
        → L.config_map_at (handle c cs w).1 k
          ≡ withdrawn
              (λ cm. is_owned (source_namespace cs.spec) cs.name cm.labels)
              targets
              (L.config_map_at w)
              k
    unfolding delete_copies withdrawn
    handle-withdraws_config_maps RC WC enabled loose k =
        let owned : ConfigMap → Bool = λ cm. is_owned source cs.name cm.labels in
        let gone = λ (s : Secret). is_owned source cs.name s.labels in
        let same =
          ConfigMaps.sweep_if-rest L gone (is_enabled cs.spec.sync_secrets) targets chosen
          ∙ targets-same (config_map-IsQuiet L) cs source w in
        ap (λ f. f k) (finalize-same L.config_map_at (λ x u. (L.config_syncs_update x u).1))
        ∙ rw enabled (
            sweep-at L.config_maps RC WC owned k targets _ named
              (λ x there hit. loose k x (sym (ap (λ f. f k) same) ∙ there) hit)
            ∙ ap (λ f. withdrawn owned targets f k) same)

    -- A secret that is not in a target namespace, whatever its labels.
    sweep-misses :
        (s : Secret) (doomed : Secret → Bool)
        → ¬ In s.namespace targets
        → (u : c.World) → L.secret_at u (key_of s.meta) ≡ some s
        → L.secret_at (sweep c.secrets doomed targets u) (key_of s.meta) ≡ some s
    sweep-misses s doomed outside =
        Shield.sweep-Stored L.secrets s doomed targets (λ ns m x asked _ same. outside (
          subst (λ n. In n targets)
            (sym (admits-within ns x.meta (named ns m) asked) ∙ ap (λ y. y.namespace) same) m))

    -- With a lawful client, failed calls or not, the reconciliation of a ConfigSync that is being
    -- deleted and carries the finalizer, once it has its targets, none of which has the name "",
    -- leaves every stored secret outside of them as it is, also one that carries both labels of
    -- this ConfigSync.
    pub handle-misses_secret :
        (s : Secret)
        → ¬ In s.namespace targets
        → L.secret_at w (key_of s.meta) ≡ some s
        → L.secret_at (handle c cs w).1 (key_of s.meta) ≡ some s
    unfolding delete_copies
    handle-misses_secret s outside there =
        let owned : Secret → Bool = λ x. is_owned source cs.name x.labels in
        let key = key_of s.meta in
        let kept = ap (λ f. f key) (targets-same (secret-IsQuiet L) cs source w) ∙ there in
        ap (λ f. f key) (finalize-same L.secret_at (λ x u. (L.config_syncs_update x u).0))
        ∙ ap (λ f. f key)
            (Secrets.sweep_if-rest L (λ cm. is_owned source cs.name cm.labels)
              (is_enabled cs.spec.sync_config_maps) targets _)
        ∙ ground (arith, kept, sweep-misses s owned outside chosen kept)
