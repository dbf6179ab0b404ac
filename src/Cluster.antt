-- ===== src/Cluster.antt =====
-- The Kubernetes client of the operator (controller-runtime's `client.Client`), label selectors and
-- the clock. None of these is code of the repository, so they are parameters: an unknown world,
-- and calls that change it and may fail at any time, for any reason.
pub mod Laws
pub mod Memory
use cicd_tools.Prelude.{ℕ, String, Bool, Option, none, List, Result, Exec}
use cicd_tools.Dict.{Dict}
use cicd_tools.Types.{Key, Secret, ConfigMap, Namespace, ConfigSync, LabelSelector}

-- `labels.Selector`
abbrev pub Selector : Type 0
Selector = Dict String → Bool

-- `client.ListOptions`. The namespace "" stands for all namespaces.
pub record ListOptions : Type 0 where
  pub namespace : String
  pub selector : Option Selector

-- The calls for the objects of one type.
pub record Api (W R : Type 0) : Type 0 where
  pub get : Key → Exec W R
  pub list : ListOptions → Exec W (List R)
  pub create : R → Exec W (Unit {0})
  pub update : R → Exec W (Unit {0})
  pub delete : R → Exec W (Unit {0})

pub record Client : Type 1 where
  pub World : Type 0
  pub secrets : Api World Secret
  pub config_maps : Api World ConfigMap
  pub namespaces : Api World Namespace
  pub config_syncs : Api World ConfigSync
  -- `r.Status().Update`
  pub update_status : ConfigSync → Exec World (Unit {0})
  -- `time.Now()` and `metav1.Now()`, and the format `time.RFC3339Nano`
  pub now : World → ℕ × World
  pub format_time : ℕ → String
  -- `metav1.LabelSelectorAsSelector`
  pub as_selector : LabelSelector → Result Selector

-- Options that restrict nothing, and those for one namespace.
abbrev pub everything : ListOptions
everything = record { namespace = ""; selector = none }

abbrev pub within : String → ListOptions
within ns = record { namespace = ns; selector = none }
