-- ===== src/Namespaces/Targets.antt =====
-- Which namespaces are targets.
use cicd_tools.Prelude.{String, ◌≡◌, refl, ◌≢◌, ◌↔◌, Bool, true, false, none, some, List}
use cicd_tools.Prelude.{[], ◌∷◌, arith, ◌==◌, eq_iff, if◌then◌else◌, In, not}
use cicd_tools.Prelude.{subst, ok}
use cicd_tools.Prelude.Select.{In-select}
use cicd_tools.Prelude.Keeps.{>>=-eq-ok}
use cicd_tools.Types.{ConfigSyncSpec}
use cicd_tools.Cluster.{Client}
use cicd_tools.Dict.{Dict, lookup, insert}
use cicd_tools.Dict.Laws.{lookup-nil, lookup-insert}
use cicd_tools.Labels.{is_system_namespace}
use cicd_tools.Slices.{contains_string}
use cicd_tools.Slices.Laws.{contains_string_iff}
use cicd_tools.Namespaces.{
  mark, is_marked, always_excluded, excluded_set, filter_namespaces, candidates,
  get_target_namespaces,
}

pub lookup-mark :
    (names : List String) (set : Dict Bool) (ns : String)
    → lookup ns (mark names set) ≡ (if contains_string names ns then some true else lookup ns set)
unfolding mark contains_string
lookup-mark [] set ns = refl
lookup-mark (n ∷ names) set ns =
    ground (arith, lookup-mark names (insert n true set) ns, lookup-insert n ns true set)

lookup-always_excluded :
    (source ns : String)
    → lookup ns (always_excluded source)
      ≡ (if is_system_namespace ns then some true else if source == ns then some true else none)
unfolding always_excluded is_system_namespace
lookup-always_excluded source ns =
    simp (lookup-insert, lookup-nil)
      (ground (
        arith,
        eq_iff "kube-system" ns,
        eq_iff ns "kube-system",
        eq_iff "kube-public" ns,
        eq_iff ns "kube-public",
        eq_iff "kube-node-lease" ns,
        eq_iff ns "kube-node-lease",
      ))

-- The set of `filterNamespaces`: what is excluded, the system namespaces and the source.
is_marked-excluded_set :
    (excluded : List String) (source ns : String)
    → is_marked ns (excluded_set excluded source) ≡ (
        if contains_string excluded ns
        then true
        else if is_system_namespace ns
        then true
        else source == ns)
unfolding is_marked excluded_set
is_marked-excluded_set excluded source ns =
    ground
      (arith, lookup-mark excluded (always_excluded source) ns, lookup-always_excluded source ns)

-- A namespace is a target exactly when it is among the given ones, is not excluded, is no system
-- namespace and is not the source namespace itself.
pub filter_namespaces_iff :
    (namespaces excluded : List String) (source ns : String)
    → In ns (filter_namespaces namespaces excluded source)
      ↔ (In ns namespaces × (¬ In ns excluded) × (is_system_namespace ns ≡ false) × (ns ≢ source))
unfolding filter_namespaces
filter_namespaces_iff namespaces excluded source ns = ground (
  arith,
  In-select (λ n. not (is_marked n (excluded_set excluded source))) ns namespaces,
  is_marked-excluded_set excluded source ns,
  contains_string_iff excluded ns,
  eq_iff source ns,
)

-- The namespaces that a ConfigSync with this source may write to.
abbrev pub IsOpen : String → String → Type 0
IsOpen source ns = (is_system_namespace ns ≡ false) × (ns ≢ source)

module _ (c : Client) (spec : ConfigSyncSpec) (source : String) where
  filter-IsOpen :
      (names : List String) (ns : String)
      → In ns (filter_namespaces names spec.excluded_namespaces source)
      → IsOpen source ns
  filter-IsOpen names ns m =
      let (_, _, plain, other) =
        (filter_namespaces_iff names spec.excluded_namespaces source ns).0 m in
      (plain, other)

  pub get_target_namespaces-IsOpen :
      (w : c.World) (targets : List String)
      → (get_target_namespaces c spec source w).0 ≡ ok targets
      → (ns : String) → In ns targets
      → IsOpen source ns
  unfolding get_target_namespaces
  get_target_namespaces-IsOpen w targets e ns m =
      let (names, _, same) = >>=-eq-ok (candidates c spec) _ w targets e in
      filter-IsOpen names ns (subst (In ns) (cc same) m)
