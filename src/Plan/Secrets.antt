-- ===== src/Plan/Secrets.antt =====
-- The step "Sync Secrets" of one round, against the plan.
pub mod Whole
pub mod Fresh
use cicd_tools.Prelude.{
  String, ℕ, ◌≡◌, refl, sym, ap, ◌∙◌, ◌≢◌, true, Option, none, List, ◌==◌, if◌then◌else◌, ok,
  select,
}
use cicd_tools.Types.{Key, Secret, ConfigSync}
use cicd_tools.Cluster.{Client, ListOptions, everything}
use cicd_tools.Cluster.Laws.{IsLawful, IsReliable, IsWritable}
use cicd_tools.Sources.{is_source_secret, list_options, list_source_secrets}
use cicd_tools.Copies.{copy_secret, overwrite_secret, sync_secret}
use cicd_tools.Cleanup.{is_enabled}
use cicd_tools.Reconcile.{
  started, secrets_listed, secrets_phase, config_maps_phase, sync_namespace, handle,
}
use cicd_tools.Plan.{named, put_named, expected}
use cicd_tools.Plan.Round.{each-planned}
use cicd_tools.Plan.Copiers.{secret-IsCopier}
use cicd_tools.Plan.Sources.{
  IsSources, IsSources-AreNamed, IsSources-later, list_options-namespace, source_namespace-named,
  named-sources, listed-IsSources,
}
use cicd_tools.Plan.Loop.{IsRound}
use cicd_tools.Labels.{config_sync_finalizer}
use cicd_tools.Slices.{contains_string}
use cicd_tools.Namespaces.{source_namespace, get_target_namespaces}
use cicd_tools.Plan.Pruning.{namespace-stored}
use cicd_tools.Plan.Assembly.{stale, IsFree}
use cicd_tools.Plan.Cleaning.{secrets-cleaned}
use cicd_tools.Plan.Whole.{IsQuiet, handle-planned}
use cicd_tools.Plan.Again.{expected_idem, source-same, later-IsFree}
use cicd_tools.Namespaces.Targets.{get_target_namespaces-IsOpen}
use cicd_tools.Plan.Untouched.{config_maps_phase-same}

module _ {c : Client} (L : IsLawful c) (RS : IsReliable c.secrets (λ s. s.meta) L.secret_at)
    (WS : IsWritable c.secrets (λ s. s.meta) L.secret_at) (cs : ConfigSync) (source : String)
    (named_source : source ≢ "") (o : ListOptions)
    (enabled : is_enabled cs.spec.sync_secrets ≡ true)
    (valid : list_options c.as_selector source cs.spec.secret_selector ≡ ok o) where
  open L use {secret_at}

  pub single : o.namespace ≢ ""
  single e =
      named_source (sym (list_options-namespace c source cs.spec.secret_selector o valid) ∙ e)

  abbrev copy : Secret → String → Secret
  copy s ns = copy_secret s ns source cs.name

  read-listed :
      (w : c.World) (items : List Secret)
      → (c.secrets.list o w).0 ≡ ok items
      → list_source_secrets c source cs.spec.secret_selector w
        ≡ (ok (select is_source_secret items), (c.secrets.list o w).1)
  unfolding list_source_secrets
  read-listed w items listed = rw (valid, list_source_secrets) (rw listed refl)

  phase-at :
      (ns : String) (n : ℕ) (w : c.World) (items : List Secret)
      → (c.secrets.list o w).0 ≡ ok items
      → (k : Key)
      → secret_at (secrets_phase c cs source (started ns) n w).2 k ≡ (
          if ns == k.namespace
          then put_named
              (λ s. s.meta)
              copy
              overwrite_secret
              (named (λ s. s.meta) k.name (select is_source_secret items))
              k.namespace
              (secret_at w k)
          else secret_at w k)
  unfolding secrets_listed sync_secret secrets_phase
  phase-at ns n w items listed k =
      let sources = listed-IsSources L.secrets o is_source_secret w items listed in
      let distinct =
        IsSources-AreNamed (λ s. s.meta) o is_source_secret single (select is_source_secret items)
          (secret_at w) sources in
      rw (enabled, secrets_phase)
        (rw (read-listed w items listed) (
          each-planned L.secrets WS (secret-IsCopier source cs.name) ns
            (select is_source_secret items) 0 (c.secrets.list o w).1 k distinct
          ∙ ap
              (λ f.
                if ns == k.namespace
                then put_named (λ s. s.meta) copy overwrite_secret
                    (named (λ s. s.meta) k.name (select is_source_secret items)) k.namespace (f k)
                else f k)
              (L.secrets.list_at o w)))

  -- One round, with the sources that were there at the start.
  pub round-at :
      (items : List Secret) (store : Key → Option Secret)
      → IsSources (λ s. s.meta) o is_source_secret items store
      → IsRound (secret-IsCopier source cs.name) c cs source secret_at items store
  unfolding sync_namespace
  round-at items store sources t p w apart agree k =
      let (read, listed) = RS.list_ok o w in
      let first = secrets_phase c cs source (started t) p.total_secrets w in
      let second = config_maps_phase c cs source first.0 p.total_config_maps first.2 in
      let fresh = listed-IsSources L.secrets o is_source_secret w read listed in
      let same =
        named-sources (λ s. s.meta) o is_source_secret single (select is_source_secret read) items
          (secret_at w) store fresh sources
          (λ j e. agree j (e ∙ list_options-namespace c source cs.spec.secret_selector o valid))
          k.name in
      ap (λ f. f k) ((L.now second.2).0)
      ∙ ap (λ f. f k) (config_maps_phase-same L cs source first.0 p.total_config_maps first.2)
      ∙ phase-at t p.total_secrets w read listed k
      ∙ ap
          (λ x.
            if t == k.namespace
            then put_named (λ s. s.meta) copy overwrite_secret x k.namespace (secret_at w k)
            else secret_at w k)
          same
