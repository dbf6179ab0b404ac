-- ===== src/Cluster/Memory.antt =====
-- A cluster in memory, in which the laws of a client hold: a client to run the operator with.
-- A store is a list, in which the first object under a key counts. Selectors match labels only,
-- and time goes by one nanosecond at each look at the clock.
mod Store
pub use Store.{In-find}
unfoldable pub use Store.{find, without, current, store_api}
use Store.{Lens, store_api-IsStore, store_api-IsReliable, store_api-IsWritable}
use cicd_tools.Prelude.{
  ℕ, ◌+◌, String, Bool, true, false, ◌&&◌, Option, none, some, List, [], ◌∷◌, ◌==◌, ok, ◌≡◌, refl,
  ap,
}
use cicd_tools.Decimal.{decimal}
use cicd_tools.Dict.{Dict, lookup}
use cicd_tools.Types.{Key, ObjectMeta, Secret, ConfigMap, Namespace, ConfigSync, LabelSelector}
use cicd_tools.Cluster.{Client, Selector}
use cicd_tools.Cluster.Laws.{IsStore, IsLawful, IsReliable, IsWritable}
use cicd_tools.Labels.{holds}

pub record Objects : Type 0 where
  pub secrets : List Secret
  pub config_maps : List ConfigMap
  pub namespaces : List Namespace
  pub config_syncs : List ConfigSync
  pub clock : ℕ

-- Where a secret is stored.
abbrev pub secret_in : Objects → Key → Option Secret
secret_in w k = find (λ s. s.meta) k w.secrets

abbrev pub config_map_in : Objects → Key → Option ConfigMap
config_map_in w k = find (λ cm. cm.meta) k w.config_maps

abbrev secret_part : Lens Objects (Key → Option ConfigMap) (List Secret) config_map_in
secret_part = record {
  get = λ w. w.secrets;
  put = λ l w. record w { secrets = l };
  get-put = λ l w. refl;
  rest-put = λ l w. refl;
}

abbrev config_map_part : Lens Objects (Key → Option Secret) (List ConfigMap) secret_in
config_map_part = record {
  get = λ w. w.config_maps;
  put = λ l w. record w { config_maps = l };
  get-put = λ l w. refl;
  rest-put = λ l w. refl;
}

-- The other objects, beside secrets and config maps.
abbrev pub both_in : Objects → (Key → Option Secret) × (Key → Option ConfigMap)
both_in w = (secret_in w, config_map_in w)

abbrev namespace_part :
    Lens Objects ((Key → Option Secret) × (Key → Option ConfigMap)) (List Namespace) both_in
namespace_part = record {
  get = λ w. w.namespaces;
  put = λ l w. record w { namespaces = l };
  get-put = λ l w. refl;
  rest-put = λ l w. refl;
}

abbrev config_sync_part :
    Lens Objects ((Key → Option Secret) × (Key → Option ConfigMap)) (List ConfigSync) both_in
config_sync_part = record {
  get = λ w. w.config_syncs;
  put = λ l w. record w { config_syncs = l };
  get-put = λ l w. refl;
  rest-put = λ l w. refl;
}

-- All the wanted labels are there.
unfoldable pub carries : Dict String → Dict String → Bool
unfolding lookup
carries [] labels = true
carries ((k, v) ∷ wanted) labels = holds (lookup k labels) v && carries wanted labels

abbrev pub memory : Client
memory = record {
  World = Objects;
  secrets = store_api (λ s. s.meta) secret_part;
  config_maps = store_api (λ cm. cm.meta) config_map_part;
  namespaces = store_api (λ ns. ns.meta) namespace_part;
  config_syncs = store_api (λ cs. cs.meta) config_sync_part;
  update_status = λ cs. (store_api (λ x. x.meta) config_sync_part).update cs;
  now = λ w. (w.clock, record w { clock = w.clock + 1 });
  format_time = decimal;
  as_selector = λ s. ok (carries s.match_labels);
}

pub halves :
    (v w : Objects)
    → both_in v ≡ both_in w
    → (secret_in v ≡ secret_in w) × (config_map_in v ≡ config_map_in w)
halves v w e = (ap (λ p. p.0) e, ap (λ p. p.1) e)

abbrev pub memory-IsLawful : IsLawful memory
memory-IsLawful = record {
  secret_at = secret_in;
  config_map_at = config_map_in;
  secrets = store_api-IsStore (λ s. s.meta) secret_part;
  config_maps = store_api-IsStore (λ cm. cm.meta) config_map_part;
  namespaces_get = λ k w.
      halves (memory.namespaces.get k w).1 w
        ((store_api-IsStore (λ ns. ns.meta) namespace_part).get_rest k w);
  namespaces_list = λ o w.
      halves (memory.namespaces.list o w).1 w
        ((store_api-IsStore (λ ns. ns.meta) namespace_part).list_rest o w);
  config_syncs_get = λ k w.
      halves (memory.config_syncs.get k w).1 w
        ((store_api-IsStore (λ cs. cs.meta) config_sync_part).get_rest k w);
  config_syncs_list = λ o w.
      halves (memory.config_syncs.list o w).1 w
        ((store_api-IsStore (λ cs. cs.meta) config_sync_part).list_rest o w);
  config_syncs_update = λ cs w.
      halves (memory.config_syncs.update cs w).1 w
        ((store_api-IsStore (λ x. x.meta) config_sync_part).update_rest cs w);
  update_status = λ cs w.
      halves (memory.update_status cs w).1 w
        ((store_api-IsStore (λ x. x.meta) config_sync_part).update_rest cs w);
  now = λ w. (refl, refl);
}

pub memory_secrets-IsReliable : IsReliable memory.secrets (λ s. s.meta) secret_in
memory_secrets-IsReliable = store_api-IsReliable (λ s. s.meta) secret_part

pub memory_config_maps-IsReliable : IsReliable memory.config_maps (λ cm. cm.meta) config_map_in
memory_config_maps-IsReliable = store_api-IsReliable (λ cm. cm.meta) config_map_part

pub memory_secrets-IsWritable : IsWritable memory.secrets (λ s. s.meta) secret_in
memory_secrets-IsWritable = store_api-IsWritable (λ s. s.meta) secret_part

pub memory_config_maps-IsWritable : IsWritable memory.config_maps (λ cm. cm.meta) config_map_in
memory_config_maps-IsWritable = store_api-IsWritable (λ cm. cm.meta) config_map_part

abbrev pub config_sync_in : Objects → Key → Option ConfigSync
config_sync_in w k = find (λ cs. cs.meta) k w.config_syncs

pub memory_config_syncs-IsStore : IsStore memory.config_syncs (λ cs. cs.meta) config_sync_in both_in
memory_config_syncs-IsStore = store_api-IsStore (λ cs. cs.meta) config_sync_part

pub memory_config_syncs-IsWritable : IsWritable memory.config_syncs (λ cs. cs.meta) config_sync_in
memory_config_syncs-IsWritable = store_api-IsWritable (λ cs. cs.meta) config_sync_part

pub memory_config_syncs-IsReliable : IsReliable memory.config_syncs (λ cs. cs.meta) config_sync_in
memory_config_syncs-IsReliable = store_api-IsReliable (λ cs. cs.meta) config_sync_part
