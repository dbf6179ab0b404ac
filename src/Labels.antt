-- ===== src/Labels.antt =====
-- The constants of operators/config-sync-zyql/controllers/configsync_controller.go, and the tests
-- on labels and namespaces that several controllers make.
use cicd_tools.Prelude.{String, Bool, false, ◌&&◌, ◌||◌, Option, none, some, ◌==◌, is_some}
use cicd_tools.Dict.{Dict, lookup}

-- ConfigSyncLabel
abbrev pub synced_from_label : String
synced_from_label = "config.zyql.com/synced-from"

-- ConfigSyncNameLabel
abbrev pub synced_by_label : String
synced_by_label = "config.zyql.com/synced-by"

-- ConfigSyncAnnotation
abbrev pub source_annotation : String
source_annotation = "config.zyql.com/source-namespace"

-- ConfigSyncFinalizer
abbrev pub config_sync_finalizer : String
config_sync_finalizer = "config.zyql.com/finalizer"

abbrev pub service_account_token : String
service_account_token = "kubernetes.io/service-account-token"

-- `_, ok := labels[ConfigSyncLabel]`
unfoldable pub is_synced : Dict String → Bool
unfolding lookup
is_synced labels = is_some (lookup synced_from_label labels)

-- `value, ok := labels[key]; ok && value == expected`
abbrev pub holds : Option String → String → Bool
holds none expected = false
holds (some value) expected = value == expected

-- Both labels are there and name this source namespace and this ConfigSync.
unfoldable pub is_owned : String → String → Dict String → Bool
unfolding lookup
is_owned source name labels =
    holds (lookup synced_from_label labels) source && holds (lookup synced_by_label labels) name

unfoldable pub is_system_namespace : String → Bool
is_system_namespace ns = ns == "kube-system" || (ns == "kube-public" || ns == "kube-node-lease")
