-- ===== src/Watch/NewNamespaces.antt =====
-- Which ConfigSyncs a new namespace touches, against those that would copy to it.
use cicd_tools.Prelude.{String, ◌≡◌, ◌≢◌, ◌↔◌, true, false, List, [], arith, In}
use cicd_tools.Types.{ConfigSyncSpec}
use cicd_tools.Labels.{is_system_namespace}
use cicd_tools.Slices.{contains_string}
use cicd_tools.Slices.Laws.{contains_string_iff}
use cicd_tools.Namespaces.{filter_namespaces}
use cicd_tools.Namespaces.Targets.{filter_namespaces_iff}
use cicd_tools.Watch.Namespaces.{should_sync}

module _ (ns : String) (spec : ConfigSyncSpec) (source : String)
    (plain : is_system_namespace ns ≡ false) (apart : ns ≢ source) where
  -- A new namespace that is neither a system namespace nor the source touches a ConfigSync exactly
  -- if it is one of the explicit targets that `filterNamespaces` keeps.
  pub should_sync_iff :
      (should_sync ns spec ≡ true)
      ↔ In ns (filter_namespaces spec.target_namespaces spec.excluded_namespaces source)
  unfolding should_sync
  should_sync_iff = ground (
    arith,
    contains_string_iff spec.target_namespaces ns,
    contains_string_iff spec.excluded_namespaces ns,
    filter_namespaces_iff spec.target_namespaces spec.excluded_namespaces source ns,
  )

  -- A namespace that exists, is neither a system namespace nor the source and is not excluded is a
  -- target of a ConfigSync without explicit targets, and yet the event of its creation does not
  -- touch that ConfigSync.
  pub should_sync-misses :
      (all : List String)
      → spec.target_namespaces ≡ []
      → In ns all
      → ¬ In ns spec.excluded_namespaces
      → In ns (filter_namespaces all spec.excluded_namespaces source)
        × (should_sync ns spec ≡ false)
  unfolding should_sync contains_string
  should_sync-misses all implicit there wanted = (
    (filter_namespaces_iff all spec.excluded_namespaces source ns).1 (there, wanted, plain, apart),
    ground arith,
  )
