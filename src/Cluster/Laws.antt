-- ===== src/Cluster/Laws.antt =====
-- What the documentation of the Kubernetes API promises of the client, for a stretch of time in
-- which nobody else writes. Any call may fail, and a call that fails may have been carried out or
-- not. `at` is what the API server stores under a key.
use cicd_tools.Prelude.{◌⊎◌}
use cicd_tools.Prelude.{◌≡◌, ◌≢◌, Bool, true, ◌&&◌, ◌||◌, Option, none, some, List, [], ◌==◌}
use cicd_tools.Prelude.{In, Error, not_found, ok, err}
use cicd_tools.Types.{Key, ObjectMeta, Secret, ConfigMap, ConfigSync}
use cicd_tools.Cluster.{Api, Client, Selector, ListOptions}

abbrev pub key_of : ObjectMeta → Key
key_of meta = record { namespace = meta.namespace; name = meta.name }

abbrev pub chosen : Option Selector → ObjectMeta → Bool
chosen none meta = true
chosen (some selector) meta = selector meta.labels

-- An object that the options of a list call ask for.
abbrev pub admits : ListOptions → ObjectMeta → Bool
admits o meta = (o.namespace == "" || meta.namespace == o.namespace) && chosen o.selector meta

-- The objects of one type; `rest` is what the calls for them leave alone.
pub record IsStore {W R X : Type 0} (api : Api W R) (meta : R → ObjectMeta)
    (at : W → Key → Option R) (rest : W → X) : Type 0 where
  pub get_at : (k : Key) (w : W) → at (api.get k w).1 ≡ at w
  pub get_rest : (k : Key) (w : W) → rest (api.get k w).1 ≡ rest w
  pub get_found :
      (k : Key) (w : W) (r : R) → (api.get k w).0 ≡ ok r → (at w k ≡ some r) × (key_of (meta r) ≡ k)
  pub get_missing :
      (k : Key) (w : W) (e : Error) → (api.get k w).0 ≡ err e → e.reason ≡ not_found → at w k ≡ none
  pub list_at : (o : ListOptions) (w : W) → at (api.list o w).1 ≡ at w
  pub list_rest : (o : ListOptions) (w : W) → rest (api.list o w).1 ≡ rest w
  pub list_found :
      (o : ListOptions) (w : W) (items : List R) (r : R)
      → (api.list o w).0 ≡ ok items
      → In r items
      → (at w (key_of (meta r)) ≡ some r) × (admits o (meta r) ≡ true)
  pub list_all :
      (o : ListOptions) (w : W) (items : List R) (r : R)
      → (api.list o w).0 ≡ ok items
      → at w (key_of (meta r)) ≡ some r
      → admits o (meta r) ≡ true
      → In r items
  pub create_rest : (r : R) (w : W) → rest (api.create r w).1 ≡ rest w
  pub create_other :
      (r : R) (w : W) (k : Key) → key_of (meta r) ≢ k → at (api.create r w).1 k ≡ at w k
  pub create_done :
      (r : R) (w : W)
      → (api.create r w).0 ≡ ok tt
      → at (api.create r w).1 (key_of (meta r)) ≡ some r
  pub update_rest : (r : R) (w : W) → rest (api.update r w).1 ≡ rest w
  pub update_other :
      (r : R) (w : W) (k : Key) → key_of (meta r) ≢ k → at (api.update r w).1 k ≡ at w k
  pub update_done :
      (r : R) (w : W)
      → (api.update r w).0 ≡ ok tt
      → at (api.update r w).1 (key_of (meta r)) ≡ some r
  pub delete_rest : (r : R) (w : W) → rest (api.delete r w).1 ≡ rest w
  pub delete_other :
      (r : R) (w : W) (k : Key) → key_of (meta r) ≢ k → at (api.delete r w).1 k ≡ at w k
  -- An object with finalizers is only marked for deletion.
  pub delete_done :
      (r : R) (w : W)
      → (api.delete r w).0 ≡ ok tt
      → (meta r).finalizers ≡ []
      → at (api.delete r w).1 (key_of (meta r)) ≡ none

-- A stretch of time in which the calls of an API server succeed: list calls return, a deletion of an
-- object without finalizers leaves none, and one of a missing object changes nothing.
pub record IsReliable {W R : Type 0} (api : Api W R) (meta : R → ObjectMeta)
    (at : W → Key → Option R) : Type 0 where
  pub list_ok : (o : ListOptions) (w : W) → (items : List R) × ((api.list o w).0 ≡ ok items)
  pub delete_gone :
      (r : R) (w : W) → (meta r).finalizers ≡ [] → at (api.delete r w).1 (key_of (meta r)) ≡ none
  pub delete_missing :
      (r : R) (w : W)
      → at w (key_of (meta r)) ≡ none
      → at (api.delete r w).1 (key_of (meta r)) ≡ none

-- A stretch of time in which list calls succeed.
abbrev pub CanList : {W R : Type 0} → Api W R → Type 0
CanList {W} {R} api = (o : ListOptions) (w : W) → (items : List R) × ((api.list o w).0 ≡ ok items)

-- A stretch of time in which the look-ups and writes of an API server succeed: a look-up finds an
-- object or says that there is none, what is missing can be created, and what is there updated.
pub record IsWritable {W R : Type 0} (api : Api W R) (meta : R → ObjectMeta)
    (at : W → Key → Option R) : Type 0 where
  pub get_ok :
      (k : Key) (w : W)
      → ((r : R) × ((api.get k w).0 ≡ ok r))
        ⊎ ((e : Error) × ((api.get k w).0 ≡ err e) × (e.reason ≡ not_found))
  pub create_ok : (r : R) (w : W) → at w (key_of (meta r)) ≡ none → (api.create r w).0 ≡ ok tt
  pub update_ok : (r x : R) (w : W) → at w (key_of (meta r)) ≡ some x → (api.update r w).0 ≡ ok tt

-- A client over a store of secrets and one of config maps. The calls for other objects and the
-- clock leave both alone.
pub record IsLawful (c : Client) : Type 0 where
  pub secret_at : c.World → Key → Option Secret
  pub config_map_at : c.World → Key → Option ConfigMap
  pub secrets : IsStore c.secrets (λ s. s.meta) secret_at config_map_at
  pub config_maps : IsStore c.config_maps (λ cm. cm.meta) config_map_at secret_at
  pub namespaces_get :
      (k : Key) (w : c.World)
      → (secret_at (c.namespaces.get k w).1 ≡ secret_at w)
        × (config_map_at (c.namespaces.get k w).1 ≡ config_map_at w)
  pub namespaces_list :
      (o : ListOptions) (w : c.World)
      → (secret_at (c.namespaces.list o w).1 ≡ secret_at w)
        × (config_map_at (c.namespaces.list o w).1 ≡ config_map_at w)
  pub config_syncs_get :
      (k : Key) (w : c.World)
      → (secret_at (c.config_syncs.get k w).1 ≡ secret_at w)
        × (config_map_at (c.config_syncs.get k w).1 ≡ config_map_at w)
  pub config_syncs_list :
      (o : ListOptions) (w : c.World)
      → (secret_at (c.config_syncs.list o w).1 ≡ secret_at w)
        × (config_map_at (c.config_syncs.list o w).1 ≡ config_map_at w)
  pub config_syncs_update :
      (cs : ConfigSync) (w : c.World)
      → (secret_at (c.config_syncs.update cs w).1 ≡ secret_at w)
        × (config_map_at (c.config_syncs.update cs w).1 ≡ config_map_at w)
  pub update_status :
      (cs : ConfigSync) (w : c.World)
      → (secret_at (c.update_status cs w).1 ≡ secret_at w)
        × (config_map_at (c.update_status cs w).1 ≡ config_map_at w)
  pub now :
      (w : c.World)
      → (secret_at (c.now w).1 ≡ secret_at w) × (config_map_at (c.now w).1 ≡ config_map_at w)
