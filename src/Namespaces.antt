-- ===== src/Namespaces.antt =====
-- The namespaces that a ConfigSync copies from and to: `getTargetNamespaces`, `filterNamespaces`
-- and `getOperatorNamespace` of operators/config-sync-zyql/controllers/configsync_controller.go.
pub mod Targets
use cicd_tools.Prelude.{String, Bool, true, false, Option, none, some, List, [], ◌∷◌, ◌==◌, map}
use cicd_tools.Prelude.{Exec, pure, ◌>>=◌, if◌then◌else◌, select, not}
use cicd_tools.Dict.{Dict, lookup, insert}
use cicd_tools.Types.{Namespace, ConfigSync, ConfigSyncSpec}
use cicd_tools.Cluster.{Client, everything}

abbrev pub operator_namespace : String
operator_namespace = ""

-- The default of the source namespace, as the reconciler computes it.
unfoldable pub source_namespace : ConfigSyncSpec → String
source_namespace spec =
    if spec.source_namespace == ""
    then (if operator_namespace == "" then "default" else operator_namespace)
    else spec.source_namespace

-- `for _, ns := range names { set[ns] = true }`
unfoldable pub mark : List String → Dict Bool → Dict Bool
mark [] set = set
mark (ns ∷ names) set = mark names (insert ns true set)

-- `set[ns]`, which is false for a missing key
unfoldable pub is_marked : String → Dict Bool → Bool
unfolding lookup
is_marked ns set = elim (lookup ns set) [ none ↦ false | some b ↦ b ]

always_excluded : String → Dict Bool
always_excluded source =
    insert "kube-node-lease" true
      (insert "kube-public" true (insert "kube-system" true (insert source true [])))

excluded_set : List String → String → Dict Bool
unfolding always_excluded
excluded_set excluded source = mark excluded (always_excluded source)

unfoldable pub filter_namespaces : List String → List String → String → List String
unfolding excluded_set is_marked
filter_namespaces namespaces excluded source =
    select (λ ns. not (is_marked ns (excluded_set excluded source))) namespaces

module _ (c : Client) where
  unfoldable pub all_namespaces : Exec c.World (List String)
  all_namespaces = do items ← c.namespaces.list everything; pure (map (λ ns. ns.name) items)

  -- The explicit targets, or all namespaces if there are none.
  unfoldable pub candidates : ConfigSyncSpec → Exec c.World (List String)
  unfolding all_namespaces
  candidates spec = elim spec.target_namespaces [
    | [] ↦ all_namespaces
    | ns ∷ more ↦ pure (ns ∷ more)
  ]

  unfoldable pub get_target_namespaces : ConfigSyncSpec → String → Exec c.World (List String)
  unfolding candidates
  get_target_namespaces spec source = do
    names ← candidates spec
    pure (filter_namespaces names spec.excluded_namespaces source)
