-- ===== src/Plan/Secrets/Whole.antt =====
-- A reconciliation and the secrets of the cluster, against the plan.
use cicd_tools.Prelude.{String, ◌≡◌, ◌∙◌, true, none, List, ok, select}
use cicd_tools.Types.{Key, Secret, ConfigSync}
use cicd_tools.Cluster.{Client, ListOptions, everything}
use cicd_tools.Cluster.Laws.{CanList, IsLawful, IsReliable, IsWritable}
use cicd_tools.Sources.{is_source_secret, list_options}
use cicd_tools.Copies.{copy_secret, overwrite_secret}
use cicd_tools.Cleanup.{is_enabled}
use cicd_tools.Reconcile.{handle}
use cicd_tools.Plan.{expected}
use cicd_tools.Plan.Copiers.{secret-IsCopier}
use cicd_tools.Plan.Sources.{
  IsSources, IsSources-later, list_options-namespace, source_namespace-named, listed-IsSources,
}
use cicd_tools.Labels.{config_sync_finalizer}
use cicd_tools.Slices.{contains_string}
use cicd_tools.Namespaces.{source_namespace, get_target_namespaces}
use cicd_tools.Plan.Pruning.{namespace-stored}
use cicd_tools.Plan.Assembly.{stale, IsFree}
use cicd_tools.Plan.Cleaning.{secrets-cleaned}
use cicd_tools.Plan.Whole.{IsQuiet, handle-planned}
use cicd_tools.Plan.Again.{expected_idem, source-same, later-IsFree}
use cicd_tools.Namespaces.Targets.{get_target_namespaces-IsOpen}
use cicd_tools.Plan.Secrets.{single, round-at}

module _ {c : Client} (L : IsLawful c) where
  open L use {secret_at, config_map_at}

  pub secret-IsQuiet : IsQuiet c secret_at
  secret-IsQuiet = record {
    list_namespaces = λ w. (L.namespaces_list everything w).0;
    update_status = λ cs w. (L.update_status cs w).0;
    now = λ w. (L.now w).0;
  }

module _ {c : Client} (L : IsLawful c) (RS : IsReliable c.secrets (λ s. s.meta) L.secret_at)
    (RC : CanList c.config_maps) (WS : IsWritable c.secrets (λ s. s.meta) L.secret_at)
    (cs : ConfigSync) (o : ListOptions) (live : cs.deletion_timestamp ≡ none)
    (ready : contains_string cs.finalizers config_sync_finalizer ≡ true)
    (enabled : is_enabled cs.spec.sync_secrets ≡ true)
    (valid : list_options c.as_selector (source_namespace cs.spec) cs.spec.secret_selector ≡ ok o)
    (w : c.World) (targets : List String)
    (found : (get_target_namespaces c cs.spec (source_namespace cs.spec) w).0 ≡ ok targets) where
  open L use {secret_at}

  abbrev source : String
  source = source_namespace cs.spec

  refined :
      IsFree (λ s. s.meta) cs source targets (secret_at w)
      → (items : List Secret) → IsSources (λ s. s.meta) o is_source_secret items (secret_at w)
      → (k : Key)
      → secret_at (handle c cs w).1 k
        ≡ expected
            (λ s. s.meta)
            (λ s ns. copy_secret s ns source cs.name)
            overwrite_secret
            (stale (λ s. s.meta) cs source)
            items
            targets
            (secret_at w)
            k
  refined free items sources =
      handle-planned (secret-IsCopier source cs.name) (secret-IsQuiet L) cs items w targets live
        ready found (namespace-stored L.secrets WS w)
        (secrets-cleaned L RS RC cs source targets w WS free)
        (round-at L RS WS cs source (source_namespace-named cs) o enabled valid items (secret_at w)
          sources)

  -- With a lawful client whose calls for secrets succeed, and whose config maps can be listed, the
  -- reconciliation of a live ConfigSync with the finalizer, whose selector is valid and which copies
  -- secrets, makes the store of secrets what the plan says, once it has its targets. The sources of
  -- the plan are the stored secrets that the options of the list call ask for and that are sources.
  -- Copies outside the targets must not have finalizers.
  pub handle-refines_secrets :
      IsFree (λ s. s.meta) cs (source_namespace cs.spec) targets (secret_at w)
      → (items : List Secret) × IsSources (λ s. s.meta) o is_source_secret items (secret_at w)
        × ((k : Key)
            → secret_at (handle c cs w).1 k
              ≡ expected
                  (λ s. s.meta)
                  (λ s ns. copy_secret s ns (source_namespace cs.spec) cs.name)
                  overwrite_secret
                  (stale (λ s. s.meta) cs (source_namespace cs.spec))
                  items
                  targets
                  (secret_at w)
                  k)
  handle-refines_secrets free =
      let (read, listed) = RS.list_ok o w in
      let sources = listed-IsSources L.secrets o is_source_secret w read listed in
      (select is_source_secret read, sources, refined free (select is_source_secret read) sources)

module _ {c : Client} (L : IsLawful c) (RS : IsReliable c.secrets (λ s. s.meta) L.secret_at)
    (RC : CanList c.config_maps) (WS : IsWritable c.secrets (λ s. s.meta) L.secret_at)
    (cs : ConfigSync) (o : ListOptions) (live : cs.deletion_timestamp ≡ none)
    (ready : contains_string cs.finalizers config_sync_finalizer ≡ true)
    (enabled : is_enabled cs.spec.sync_secrets ≡ true)
    (valid : list_options c.as_selector (source_namespace cs.spec) cs.spec.secret_selector
      ≡ ok o) where
  open L use {secret_at}

  -- Reconciling again changes nothing: under the conditions of the plan, and with the same targets
  -- the second time, the store of secrets after a second reconciliation is that after the first.
  pub handle-again_secrets :
      (w : c.World) (targets : List String)
      → (get_target_namespaces c cs.spec (source_namespace cs.spec) w).0 ≡ ok targets
      → (get_target_namespaces c cs.spec (source_namespace cs.spec) (handle c cs w).1).0
        ≡ ok targets
      → IsFree (λ s. s.meta) cs (source_namespace cs.spec) targets (secret_at w)
      → (k : Key) → secret_at (handle c cs (handle c cs w).1).1 k ≡ secret_at (handle c cs w).1 k
  handle-again_secrets w targets found again free k =
      let source = source_namespace cs.spec in
      let v = (handle c cs w).1 in
      let (items, sources, planned) =
        handle-refines_secrets L RS RC WS cs o live ready enabled valid w targets found free in
      let keyed = namespace-stored L.secrets WS in
      let same =
        source-same (secret-IsCopier source cs.name) cs source items targets (secret_at w)
          (secret_at v) planned
          (λ t m. (get_target_namespaces-IsOpen c cs.spec source w targets found t m).1)
          (keyed w) in
      let free' =
        later-IsFree (secret-IsCopier source cs.name) cs source items targets (secret_at w)
          (secret_at v) planned (keyed v) in
      let sources' =
        IsSources-later (λ s. s.meta) o is_source_secret
          (single L RS WS cs source (source_namespace-named cs) o enabled valid) items (secret_at w)
          (secret_at v) sources
          (λ j e. same j (e ∙ list_options-namespace c source cs.spec.secret_selector o valid)) in
      refined L RS RC WS cs o live ready enabled valid v targets again free' items sources' k
      ∙ expected_idem (secret-IsCopier source cs.name) cs source items targets (secret_at w)
          (secret_at v) planned k
