-- ===== src/Tests.antt =====
-- Objects to run the operator on, and the witnesses of the theorems on them.
mod Safety
mod Copying
mod Plans
mod Starting
mod Running
mod Removing
mod Watching
mod Touching
mod Admission
mod Values
use cicd_tools.Prelude.{ℕ, String, true, false, none, some, List, [], ◌∷◌}
use cicd_tools.Prelude.Int.{ℤ, pos}
use cicd_tools.Dict.{Dict}
use cicd_tools.Types.{Key, ObjectMeta, Secret, ConfigMap, Namespace, ConfigSync, ConfigSyncSpec}
use cicd_tools.Labels.{synced_from_label, synced_by_label, source_annotation, config_sync_finalizer}
use cicd_tools.Cluster.Memory.{Objects}

abbrev pub at : String → String → Key
at namespace name = record { namespace = namespace; name = name }

abbrev pub meta_at : String → String → Dict String → ObjectMeta
meta_at namespace name labels = record {
  name = name;
  namespace = namespace;
  labels = labels;
  annotations = [];
  finalizers = [];
  deletion_timestamp = none;
}

-- The labels of a copy made for the ConfigSync `shared`.
abbrev pub shared_labels : Dict String
shared_labels = (synced_from_label, "default") ∷ (synced_by_label, "shared") ∷ []

abbrev pub secret_with : String → String → Dict String → Secret
secret_with namespace name labels = record {
  meta = meta_at namespace name labels;
  type = "Opaque";
  contents = ("password", 104 ∷ 105 ∷ []) ∷ [];
}

abbrev pub config_map_with : String → String → Dict String → ConfigMap
config_map_with namespace name labels = record {
  meta = meta_at namespace name labels;
  contents = ("level", "info") ∷ [];
  binary_data = ("icon", 7 ∷ []) ∷ [];
}

-- A source, an object that a user made in a target namespace, a copy in a namespace that is no
-- target any more, and a copy that another ConfigSync made.
abbrev pub db : Secret
db = secret_with "default" "db" (("app", "web") ∷ [])

abbrev pub own_db : Secret
own_db = secret_with "qa" "db" []

abbrev pub left_over : Secret
left_over = secret_with "old" "db" shared_labels

abbrev pub foreign : Secret
foreign = secret_with "prod" "tls" ((synced_from_label, "infra") ∷ (synced_by_label, "tls") ∷ [])

abbrev pub app : ConfigMap
app = config_map_with "default" "app" []

abbrev pub own_app : ConfigMap
own_app = config_map_with "qa" "app" []

abbrev pub foreign_app : ConfigMap
foreign_app =
    config_map_with "prod" "tls" ((synced_from_label, "infra") ∷ (synced_by_label, "tls") ∷ [])

abbrev pub shared_spec : ConfigSyncSpec
shared_spec = record {
  source_namespace = "";
  target_namespaces = "qa" ∷ "prod" ∷ "kube-system" ∷ [];
  excluded_namespaces = [];
  sync_secrets = none;
  sync_config_maps = some true;
  secret_selector = none;
  config_map_selector = none;
  sync_interval_seconds = some (pos 30);
}

abbrev pub shared_with : List String → ConfigSync
shared_with finalizers = record {
  meta = record (meta_at "" "shared" []) { finalizers = finalizers };
  spec = shared_spec;
  status = record {
    synced_secrets = 0;
    synced_config_maps = 0;
    last_sync_time = none;
    conditions = [];
    target_namespace_status = [];
  };
}

-- The ConfigSync before it has its finalizer, in use, and on its deletion.
abbrev pub fresh : ConfigSync
fresh = shared_with []

abbrev pub shared : ConfigSync
shared = shared_with (config_sync_finalizer ∷ [])

abbrev pub doomed : ConfigSync
doomed = record shared { meta = record shared.meta { deletion_timestamp = some 5 } }

abbrev pub world : Objects
world = record {
  secrets = db ∷ own_db ∷ left_over ∷ foreign ∷ [];
  config_maps = app ∷ own_app ∷ foreign_app ∷ [];
  namespaces = [];
  config_syncs = shared ∷ [];
  clock = 100;
}
