-- ===== src/Types.antt =====
-- operators/config-sync-zyql/api/v1/configsync_types.go, and the fields of the Kubernetes objects
-- that the operator reads or writes. A pointer is an `Option`, and a timestamp a number of
-- nanoseconds. Fields that no code of the operator reads or writes are left out.
use cicd_tools.Prelude.{ℕ, String, Bool, Option, List}
use cicd_tools.Prelude.Int.{ℤ}
use cicd_tools.Dict.{Dict}

-- `types.NamespacedName`. The namespace of a cluster-scoped object is "".
pub record Key : Type 0 where
  pub namespace : String
  pub name : String

-- The fields of `metav1.ObjectMeta` in use. `none` is a zero deletion timestamp.
pub record ObjectMeta : Type 0 where
  pub name : String
  pub namespace : String
  pub labels : Dict String
  pub annotations : Dict String
  pub finalizers : List String
  pub deletion_timestamp : Option ℕ

abbrev pub Bytes : Type 0
Bytes = List ℕ

pub record Secret : Type 0 where
  pub meta : ObjectMeta
  pub open meta use *
  pub type : String
  pub contents : Dict Bytes

pub record ConfigMap : Type 0 where
  pub meta : ObjectMeta
  pub open meta use *
  pub contents : Dict String
  pub binary_data : Dict Bytes

pub record Namespace : Type 0 where
  pub meta : ObjectMeta
  pub open meta use *

pub record Requirement : Type 0 where
  pub key : String
  pub operator : String
  pub values : List String

-- `metav1.LabelSelector`
pub record LabelSelector : Type 0 where
  pub match_labels : Dict String
  pub match_expressions : List Requirement

pub record ConfigSyncSpec : Type 0 where
  pub source_namespace : String
  pub target_namespaces : List String
  pub excluded_namespaces : List String
  pub sync_secrets : Option Bool
  pub sync_config_maps : Option Bool
  pub secret_selector : Option LabelSelector
  pub config_map_selector : Option LabelSelector
  pub sync_interval_seconds : Option ℤ

pub record NamespaceStatus : Type 0 where
  pub namespace : String
  pub synced_secrets : ℕ
  pub synced_config_maps : ℕ
  pub last_sync_time : Option ℕ
  pub status : String
  pub message : String

-- `metav1.Condition`
pub record Condition : Type 0 where
  pub type : String
  pub status : String
  pub reason : String
  pub message : String
  pub last_transition_time : ℕ

pub record ConfigSyncStatus : Type 0 where
  pub synced_secrets : ℕ
  pub synced_config_maps : ℕ
  pub last_sync_time : Option ℕ
  pub conditions : List Condition
  pub target_namespace_status : List NamespaceStatus

pub record ConfigSync : Type 0 where
  pub meta : ObjectMeta
  pub open meta use *
  pub spec : ConfigSyncSpec
  pub status : ConfigSyncStatus
