-- ===== src/Reconcile/Steps.antt =====
-- A reconciliation is made of a few kinds of steps. A predicate on the world that each of them
-- keeps is kept by the whole of it, on every path, failed or not.
use cicd_tools.Prelude.{String, ℕ, arith, ◌≡◌, refl, Bool, Option, List, [], ◌∷◌, In, inl, inr}
use cicd_tools.Prelude.{Result, ok, err, Exec, Bool-cases, ◌>>=◌, pure, fail}
use cicd_tools.Prelude.{select}
use cicd_tools.Prelude.Keeps.{Keeps, Keeps-bind}
use cicd_tools.Dict.{Dict}
use cicd_tools.Types.{
  Key, LabelSelector, Secret, ConfigMap, ConfigSync, ConfigSyncSpec, NamespaceStatus,
}
use cicd_tools.Cluster.{Api, Client, ListOptions, everything}
use cicd_tools.Labels.{is_owned}
use cicd_tools.Namespaces.{source_namespace, get_target_namespaces}
use cicd_tools.Namespaces.Targets.{IsOpen}
use cicd_tools.Sources.{
  is_source_secret, is_source_config_map, list_options, list_source_secrets,
  list_source_config_maps,
}
use cicd_tools.Copies.{sync_secret, sync_config_map}
use cicd_tools.Cleanup.{is_enabled, delete_listed, sweep, is_left_over}
use cicd_tools.Reconcile.{
  Progress, started, sync_each, secrets_listed, config_maps_listed, secrets_phase,
  config_maps_phase, sync_namespace, sync_namespaces,
}

-- Calls that write no secret and no config map.
pub record Calls (c : Client) (P : c.World → Type 0) : Type 0 where
  pub list_namespaces : Keeps P (c.namespaces.list everything)
  pub get_config_sync : (k : Key) → Keeps P (c.config_syncs.get k)
  pub update_config_sync : (x : ConfigSync) → Keeps P (c.config_syncs.update x)
  pub update_status : (x : ConfigSync) → Keeps P (c.update_status x)
  pub now : (w : c.World) → P w → P (c.now w).1
  pub list_secrets : (o : ListOptions) → Keeps P (c.secrets.list o)
  pub list_config_maps : (o : ListOptions) → Keeps P (c.config_maps.list o)
  pub get_secret : (k : Key) → Keeps P (c.secrets.get k)
  pub get_config_map : (k : Key) → Keeps P (c.config_maps.get k)
  pub get_namespace : (k : Key) → Keeps P (c.namespaces.get k)
  pub list_config_syncs : Keeps P (c.config_syncs.list everything)

-- The steps of a synchronisation.
pub record Steps (c : Client) (cs : ConfigSync) (P : c.World → Type 0) : Type 0 where
  pub calls : Calls c P
  pub open calls use *
  pub copy_secret :
      (s : Secret) (ns : String)
      → IsOpen (source_namespace cs.spec) ns
      → Keeps P (sync_secret c s ns (source_namespace cs.spec) cs.name)
  pub copy_config_map :
      (cm : ConfigMap) (ns : String)
      → IsOpen (source_namespace cs.spec) ns
      → Keeps P (sync_config_map c cm ns (source_namespace cs.spec) cs.name)
  pub drop_secrets :
      (set : Dict Bool) (w : c.World)
      → P w
      → let (r, w') = c.secrets.list everything w in
        P (
          delete_listed c.secrets (λ s. is_left_over cs (source_namespace cs.spec) set s.meta) r w')
  pub drop_config_maps :
      (set : Dict Bool) (w : c.World)
      → P w
      → let (r, w') = c.config_maps.list everything w in
        P (
          delete_listed c.config_maps
            (λ cm. is_left_over cs (source_namespace cs.spec) set cm.meta)
            r
            w')

-- The steps of the clean-up before a ConfigSync goes.
pub record Sweeps (c : Client) (cs : ConfigSync) (P : c.World → Type 0) : Type 0 where
  pub calls : Calls c P
  pub open calls use *
  pub sweep_secrets :
      (targets : List String)
      → ((ns : String) → In ns targets → IsOpen (source_namespace cs.spec) ns)
      → (w : c.World) → P w
      → P (sweep c.secrets (λ s. is_owned (source_namespace cs.spec) cs.name s.labels) targets w)
  pub sweep_config_maps :
      (targets : List String)
      → ((ns : String) → In ns targets → IsOpen (source_namespace cs.spec) ns)
      → (w : c.World) → P w
      → P (
          sweep c.config_maps
            (λ cm. is_owned (source_namespace cs.spec) cs.name cm.labels)
            targets
            w)

-- The choice of the targets.
pub targets-Keeps :
    {c : Client} {P : c.World → Type 0} (calls : Calls c P) (spec : ConfigSyncSpec)
    (source : String)
    → Keeps P (get_target_namespaces c spec source)
unfolding get_target_namespaces
targets-Keeps calls spec source w h = ground (arith, calls.list_namespaces w h)

pub namespace-secrets_phase :
    (c : Client) (cs : ConfigSync) (source : String) (st : NamespaceStatus) (n : ℕ) (w : c.World)
    → (secrets_phase c cs source st n w).0.namespace ≡ st.namespace
unfolding secrets_phase
namespace-secrets_phase c cs source st n w = ground arith

module _ {c : Client} {cs : ConfigSync} {P : c.World → Type 0} (steps : Steps c cs P) where
  open steps use {
    list_namespaces, now, list_secrets, list_config_maps, copy_secret, copy_config_map,
  }

  abbrev source : String
  source = source_namespace cs.spec

  sync_each-Keeps :
      {R : Type 0} (copy : R → Exec c.World (Unit {0}))
      → ((r : R) → Keeps P (copy r))
      → (items : List R) (n : ℕ) (w : c.World) → P w
      → P (sync_each copy items n w).1
  unfolding sync_each
  sync_each-Keeps copy k [] n w h = h
  sync_each-Keeps copy k (r ∷ items) n w h = sync_each-Keeps copy k items _ _ (k r w h)

  -- A list call under options that may be invalid.
  options_first-Keeps :
      {R : Type 0} (r : Result ListOptions) (api : Api c.World R) (keep : List R → List R)
      → ((o : ListOptions) → Keeps P (api.list o))
      → Keeps P (elim r [ err e ↦ fail e | ok o ↦ do items ← api.list o; pure (keep items) ])
  options_first-Keeps (err e) api keep k w h = h
  options_first-Keeps (ok o) api keep k w h =
      Keeps-bind (api.list o) (λ items. pure (keep items)) (k o) (λ w items e v h. h) w h

  list_source_secrets-Keeps : (o : Option LabelSelector) → Keeps P (list_source_secrets c source o)
  unfolding list_source_secrets
  list_source_secrets-Keeps o =
      options_first-Keeps (list_options c.as_selector source o) c.secrets (select is_source_secret)
        list_secrets

  list_source_config_maps-Keeps :
      (o : Option LabelSelector) → Keeps P (list_source_config_maps c source o)
  unfolding list_source_config_maps
  list_source_config_maps-Keeps o =
      options_first-Keeps (list_options c.as_selector source o) c.config_maps
        (select is_source_config_map) list_config_maps

  secrets_listed-Keeps :
      (st : NamespaceStatus) (n : ℕ) (r : Result (List Secret)) (w : c.World)
      → IsOpen source st.namespace
      → P w
      → P (secrets_listed c cs source st n r w).2
  unfolding secrets_listed
  secrets_listed-Keeps st n (err e) w o h = h
  secrets_listed-Keeps st n (ok items) w o h =
      sync_each-Keeps _ (λ s. copy_secret s st.namespace o) items 0 w h

  config_maps_listed-Keeps :
      (st : NamespaceStatus) (n : ℕ) (r : Result (List ConfigMap)) (w : c.World)
      → IsOpen source st.namespace
      → P w
      → P (config_maps_listed c cs source st n r w).2
  unfolding config_maps_listed
  config_maps_listed-Keeps st n (err e) w o h = h
  config_maps_listed-Keeps st n (ok items) w o h =
      sync_each-Keeps _ (λ cm. copy_config_map cm st.namespace o) items 0 w h

  secrets_phase-Keeps :
      (st : NamespaceStatus) (n : ℕ) (w : c.World)
      → IsOpen source st.namespace
      → P w
      → P (secrets_phase c cs source st n w).2
  unfolding secrets_phase
  secrets_phase-Keeps st n w o h = elim (Bool-cases (is_enabled cs.spec.sync_secrets)) [
    | inl on ↦
        rw (on, secrets_phase)
          (secrets_listed-Keeps st n (list_source_secrets c source cs.spec.secret_selector w).0 _ o
            (list_source_secrets-Keeps cs.spec.secret_selector w h))
    | inr off ↦ rw (off, secrets_phase) h
  ]

  config_maps_phase-Keeps :
      (st : NamespaceStatus) (n : ℕ) (w : c.World)
      → IsOpen source st.namespace
      → P w
      → P (config_maps_phase c cs source st n w).2
  unfolding config_maps_phase
  config_maps_phase-Keeps st n w o h = elim (Bool-cases (is_enabled cs.spec.sync_config_maps)) [
    | inl on ↦
        rw (on, config_maps_phase)
          (config_maps_listed-Keeps st n
            (list_source_config_maps c source cs.spec.config_map_selector w).0 _ o
            (list_source_config_maps-Keeps cs.spec.config_map_selector w h))
    | inr off ↦ rw (off, config_maps_phase) h
  ]

  sync_namespace-Keeps :
      (ns : String) (p : Progress) (w : c.World)
      → IsOpen source ns
      → P w
      → P (sync_namespace c cs source ns p w).1
  unfolding sync_namespace
  sync_namespace-Keeps ns p w o h = now _ (
      config_maps_phase-Keeps (secrets_phase c cs source (started ns) p.total_secrets w).0
        p.total_config_maps _
        (rw (namespace-secrets_phase c cs source (started ns) p.total_secrets w) o)
        (secrets_phase-Keeps (started ns) p.total_secrets w o h))

  pub sync_namespaces-Keeps :
      (targets : List String) (p : Progress) (w : c.World)
      → ((ns : String) → In ns targets → IsOpen source ns)
      → P w
      → P (sync_namespaces c cs source targets p w).1
  unfolding sync_namespaces
  sync_namespaces-Keeps [] p w o h = h
  sync_namespaces-Keeps (ns ∷ targets) p w o h =
      sync_namespaces-Keeps targets _ _ (λ n m. o n (inr m))
        (sync_namespace-Keeps ns p w (o ns (inl refl)) h)
