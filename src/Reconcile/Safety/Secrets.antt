-- ===== src/Reconcile/Safety/Secrets.antt =====
-- Reconciliations, and the secrets that are none of their copies.
use cicd_tools.Prelude.{String, ◌≡◌, refl, sym, ap, ◌∙◌, subst, false, inl, inr}
use cicd_tools.Prelude.{Option, none, some, Result, err, ok}
use cicd_tools.Prelude.{Reason-cases}
use cicd_tools.Prelude.Keeps.{Keeps, Keeps-attempt}
use cicd_tools.Types.{Key, Secret, ConfigSync}
use cicd_tools.Cluster.{Client, everything}
use cicd_tools.Cluster.Laws.{IsLawful, key_of}
use cicd_tools.Labels.{is_synced, is_owned}
use cicd_tools.Namespaces.{source_namespace}
use cicd_tools.Namespaces.Targets.{IsOpen}
use cicd_tools.Copies.{sync_secret, sync_config_map}
use cicd_tools.Shield
use cicd_tools.Shield.{IsShielded}
use cicd_tools.Reconcile.{fetched, finalize, handle, reconcile}
use cicd_tools.Reconcile.Steps.{Calls, Steps, Sweeps}
use cicd_tools.Reconcile.Whole.{finalize-Keeps, handle-Keeps, live-Keeps}
use cicd_tools.Reconcile.Safety.{
  not-IsShielded_of_left_over, unmanaged_of_IsShielded, not-owned_of_unmanaged,
}

module _ {c : Client} (L : IsLawful c) where
  open L use {secret_at, config_map_at, secrets, config_maps}

  -- A secret is where it is stored.
  abbrev pub HoldsSecret : Secret → c.World → Type 0
  HoldsSecret s w = secret_at w (key_of s.meta) ≡ some s

  pub secret-Calls : (s : Secret) → Calls c (HoldsSecret s)
  secret-Calls s = record {
    list_namespaces = λ w h. stay (L.namespaces_list everything w).0 h;
    get_config_sync = λ k w h. stay (L.config_syncs_get k w).0 h;
    update_config_sync = λ x w h. stay (L.config_syncs_update x w).0 h;
    update_status = λ x w h. stay (L.update_status x w).0 h;
    now = λ w h. stay (L.now w).0 h;
    list_secrets = λ o w h. stay (secrets.list_at o w) h;
    list_config_maps = λ o w h. stay (config_maps.list_rest o w) h;
    get_secret = λ k w h. stay (secrets.get_at k w) h;
    get_config_map = λ k w h. stay (config_maps.get_rest k w) h;
    get_namespace = λ k w h. stay (L.namespaces_get k w).0 h;
    list_config_syncs = λ w h. stay (L.config_syncs_list everything w).0 h;
  }
    where
      stay :
          {f g : Key → Option Secret}
          → f ≡ g
          → g (key_of s.meta) ≡ some s
          → f (key_of s.meta) ≡ some s
      stay e h = ap (λ f. f (key_of s.meta)) e ∙ h

  secret-Steps :
      (cs : ConfigSync) (s : Secret)
      → IsShielded (source_namespace cs.spec) s.meta
      → Steps c cs (HoldsSecret s)
  unfolding sync_secret sync_config_map
  secret-Steps cs s shield = record {
    calls = secret-Calls s;
    copy_secret = λ x ns o.
        Shield.write_copy-Stored secrets s _ _ (λ y. refl)
          (λ same. unmanaged_of_IsShielded source ns s.meta o shield (ap (λ k. k.namespace) same));
    copy_config_map =
        λ cm ns o w h. ap (λ f. f (key_of s.meta)) (Shield.rest-write_copy config_maps _ _ w) ∙ h;
    drop_secrets = λ set. Shield.delete_listed-Stored secrets s _ everything (λ x _ hit same.
        not-IsShielded_of_left_over cs source set x.meta hit
          (subst (λ y. IsShielded source y.meta) (sym same) shield));
    drop_config_maps = λ set w h.
        ap (λ f. f (key_of s.meta)) (Shield.rest-delete_listed config_maps _ everything w) ∙ h;
  }
    where
      source : String
      source = source_namespace cs.spec

  secret-Sweeps :
      (cs : ConfigSync) (s : Secret)
      → is_owned (source_namespace cs.spec) cs.name s.labels ≡ false
      → Sweeps c cs (HoldsSecret s)
  secret-Sweeps cs s foreign = record {
    calls = secret-Calls s;
    sweep_secrets = λ targets o. Shield.sweep-Stored secrets s _ targets (λ ns m x _ hit same.
        cc (hit, foreign, ap (λ y. is_owned (source_namespace cs.spec) cs.name y.labels) same));
    sweep_config_maps = λ targets o w h.
        ap (λ f. f (key_of s.meta)) (Shield.rest-sweep config_maps _ targets w) ∙ h;
  }

  fetched-HoldsSecret :
      (s : Secret)
      → is_synced s.labels ≡ false
      → (r : Result ConfigSync) → Keeps (HoldsSecret s) (fetched c r)
  unfolding fetched
  fetched-HoldsSecret s unmanaged (err e) w h = elim (Reason-cases e.reason) [
    | inl q ↦ rw (q, fetched) h
    | inr q ↦ rw (q, fetched) h
  ]
  fetched-HoldsSecret s unmanaged (ok cs) w h =
      handle-Keeps
        (secret-Sweeps cs s
          (not-owned_of_unmanaged (source_namespace cs.spec) cs.name s.labels unmanaged))
        (secret-Steps cs s (inl unmanaged)) w h

  -- With a client that obeys the laws of Cluster.Laws, no reconciliation, of whatever request,
  -- failed or not, changes or deletes a stored secret that does not carry the operator's label.
  pub reconcile-HoldsSecret :
      (request : Key) (s : Secret) (w : c.World)
      → is_synced s.labels ≡ false
      → secret_at w (key_of s.meta) ≡ some s
      → secret_at (reconcile c request w).1 (key_of s.meta) ≡ some s
  unfolding reconcile
  reconcile-HoldsSecret request s w unmanaged =
      Keeps-attempt (c.config_syncs.get request) (fetched c)
        ((secret-Calls s).get_config_sync request) (λ _ r _. fetched-HoldsSecret s unmanaged r) w

  -- While a ConfigSync is not being deleted, its reconciliation changes or deletes no stored secret
  -- in its source namespace or in a system namespace, labelled or not, with a lawful client.
  pub handle-HoldsSecret :
      (cs : ConfigSync) (s : Secret) (w : c.World)
      → cs.deletion_timestamp ≡ none
      → ¬ IsOpen (source_namespace cs.spec) s.namespace
      → secret_at w (key_of s.meta) ≡ some s
      → secret_at (handle c cs w).1 (key_of s.meta) ≡ some s
  handle-HoldsSecret cs s w live closed = live-Keeps (secret-Steps cs s (inr closed)) live w

  -- With a lawful client, the clean-up of a ConfigSync that is being deleted leaves every stored
  -- secret alone whose two labels do not both name this ConfigSync and its source namespace.
  pub finalize-HoldsSecret :
      (cs : ConfigSync) (s : Secret) (w : c.World)
      → is_owned (source_namespace cs.spec) cs.name s.labels ≡ false
      → secret_at w (key_of s.meta) ≡ some s
      → secret_at (finalize c cs w).1 (key_of s.meta) ≡ some s
  finalize-HoldsSecret cs s w foreign = finalize-Keeps (secret-Sweeps cs s foreign) w
