-- ===== src/Reconcile/Safety/ConfigMaps.antt =====
-- Reconciliations, and the config maps that are none of their copies.
use cicd_tools.Prelude.{String, ◌≡◌, refl, sym, ap, ◌∙◌, subst, false, inl, inr}
use cicd_tools.Prelude.{Option, none, some, Result, err, ok}
use cicd_tools.Prelude.{Reason-cases}
use cicd_tools.Prelude.Keeps.{Keeps, Keeps-attempt}
use cicd_tools.Types.{Key, ConfigMap, ConfigSync}
use cicd_tools.Cluster.{Client, everything}
use cicd_tools.Cluster.Laws.{IsLawful, key_of}
use cicd_tools.Labels.{is_synced, is_owned}
use cicd_tools.Namespaces.{source_namespace}
use cicd_tools.Namespaces.Targets.{IsOpen}
use cicd_tools.Copies.{sync_secret, sync_config_map}
use cicd_tools.Shield
use cicd_tools.Shield.{IsShielded}
use cicd_tools.Reconcile.{fetched, finalize, handle, reconcile}
use cicd_tools.Reconcile.Steps.{Calls, Steps, Sweeps}
use cicd_tools.Reconcile.Whole.{finalize-Keeps, handle-Keeps, live-Keeps}
use cicd_tools.Reconcile.Safety.{
  not-IsShielded_of_left_over, unmanaged_of_IsShielded, not-owned_of_unmanaged,
}

module _ {c : Client} (L : IsLawful c) where
  open L use {secret_at, config_map_at, secrets, config_maps}

  -- A config map is where it is stored.
  abbrev pub HoldsConfigMap : ConfigMap → c.World → Type 0
  HoldsConfigMap cm w = config_map_at w (key_of cm.meta) ≡ some cm

  pub config_map-Calls : (cm : ConfigMap) → Calls c (HoldsConfigMap cm)
  config_map-Calls cm = record {
    list_namespaces = λ w h. stay (L.namespaces_list everything w).1 h;
    get_config_sync = λ k w h. stay (L.config_syncs_get k w).1 h;
    update_config_sync = λ x w h. stay (L.config_syncs_update x w).1 h;
    update_status = λ x w h. stay (L.update_status x w).1 h;
    now = λ w h. stay (L.now w).1 h;
    list_secrets = λ o w h. stay (secrets.list_rest o w) h;
    list_config_maps = λ o w h. stay (config_maps.list_at o w) h;
    get_secret = λ k w h. stay (secrets.get_rest k w) h;
    get_config_map = λ k w h. stay (config_maps.get_at k w) h;
    get_namespace = λ k w h. stay (L.namespaces_get k w).1 h;
    list_config_syncs = λ w h. stay (L.config_syncs_list everything w).1 h;
  }
    where
      stay :
          {f g : Key → Option ConfigMap}
          → f ≡ g
          → g (key_of cm.meta) ≡ some cm
          → f (key_of cm.meta) ≡ some cm
      stay e h = ap (λ f. f (key_of cm.meta)) e ∙ h

  config_map-Steps :
      (cs : ConfigSync) (cm : ConfigMap)
      → IsShielded (source_namespace cs.spec) cm.meta
      → Steps c cs (HoldsConfigMap cm)
  unfolding sync_secret sync_config_map
  config_map-Steps cs cm shield = record {
    calls = config_map-Calls cm;
    copy_secret =
        λ x ns o w h. ap (λ f. f (key_of cm.meta)) (Shield.rest-write_copy secrets _ _ w) ∙ h;
    copy_config_map = λ x ns o.
        Shield.write_copy-Stored config_maps cm _ _ (λ y. refl)
          (λ same. unmanaged_of_IsShielded source ns cm.meta o shield (ap (λ k. k.namespace) same));
    drop_secrets = λ set w h.
        ap (λ f. f (key_of cm.meta)) (Shield.rest-delete_listed secrets _ everything w) ∙ h;
    drop_config_maps = λ set.
        Shield.delete_listed-Stored config_maps cm _ everything (λ x _ hit same.
          not-IsShielded_of_left_over cs source set x.meta hit
            (subst (λ y. IsShielded source y.meta) (sym same) shield));
  }
    where
      source : String
      source = source_namespace cs.spec

  config_map-Sweeps :
      (cs : ConfigSync) (cm : ConfigMap)
      → is_owned (source_namespace cs.spec) cs.name cm.labels ≡ false
      → Sweeps c cs (HoldsConfigMap cm)
  config_map-Sweeps cs cm foreign = record {
    calls = config_map-Calls cm;
    sweep_secrets =
        λ targets o w h. ap (λ f. f (key_of cm.meta)) (Shield.rest-sweep secrets _ targets w) ∙ h;
    sweep_config_maps = λ targets o.
        Shield.sweep-Stored config_maps cm _ targets (λ ns m x _ hit same.
          cc (hit, foreign, ap (λ y. is_owned (source_namespace cs.spec) cs.name y.labels) same));
  }

  fetched-HoldsConfigMap :
      (cm : ConfigMap)
      → is_synced cm.labels ≡ false
      → (r : Result ConfigSync) → Keeps (HoldsConfigMap cm) (fetched c r)
  unfolding fetched
  fetched-HoldsConfigMap cm unmanaged (err e) w h = elim (Reason-cases e.reason) [
    | inl q ↦ rw (q, fetched) h
    | inr q ↦ rw (q, fetched) h
  ]
  fetched-HoldsConfigMap cm unmanaged (ok cs) w h =
      handle-Keeps
        (config_map-Sweeps cs cm
          (not-owned_of_unmanaged (source_namespace cs.spec) cs.name cm.labels unmanaged))
        (config_map-Steps cs cm (inl unmanaged)) w h

  -- With a client that obeys the laws of Cluster.Laws, no reconciliation, of whatever request,
  -- failed or not, changes or deletes a stored config map that does not carry the operator's label.
  pub reconcile-HoldsConfigMap :
      (request : Key) (cm : ConfigMap) (w : c.World)
      → is_synced cm.labels ≡ false
      → config_map_at w (key_of cm.meta) ≡ some cm
      → config_map_at (reconcile c request w).1 (key_of cm.meta) ≡ some cm
  unfolding reconcile
  reconcile-HoldsConfigMap request cm w unmanaged =
      Keeps-attempt (c.config_syncs.get request) (fetched c)
        ((config_map-Calls cm).get_config_sync request)
        (λ _ r _. fetched-HoldsConfigMap cm unmanaged r) w

  -- While a ConfigSync is not being deleted, its reconciliation changes or deletes no stored config
  -- map in its source namespace or in a system namespace, labelled or not, with a lawful client.
  pub handle-HoldsConfigMap :
      (cs : ConfigSync) (cm : ConfigMap) (w : c.World)
      → cs.deletion_timestamp ≡ none
      → ¬ IsOpen (source_namespace cs.spec) cm.namespace
      → config_map_at w (key_of cm.meta) ≡ some cm
      → config_map_at (handle c cs w).1 (key_of cm.meta) ≡ some cm
  handle-HoldsConfigMap cs cm w live closed =
      live-Keeps (config_map-Steps cs cm (inr closed)) live w

  -- With a lawful client, the clean-up of a ConfigSync that is being deleted leaves every stored
  -- config map alone whose two labels do not both name this ConfigSync and its source namespace.
  pub finalize-HoldsConfigMap :
      (cs : ConfigSync) (cm : ConfigMap) (w : c.World)
      → is_owned (source_namespace cs.spec) cs.name cm.labels ≡ false
      → config_map_at w (key_of cm.meta) ≡ some cm
      → config_map_at (finalize c cs w).1 (key_of cm.meta) ≡ some cm
  finalize-HoldsConfigMap cs cm w foreign = finalize-Keeps (config_map-Sweeps cs cm foreign) w
