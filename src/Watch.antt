-- ===== src/Watch.antt =====
-- What the controllers of Secrets, ConfigMaps and Namespaces share: which ConfigSync watches an
-- object, and the loop that touches those ConfigSyncs so that they are reconciled.
pub mod Secrets
pub mod ConfigMaps
pub mod Namespaces
pub mod Touching
pub mod Reached
pub mod Touched
pub mod SecretsSafety
pub mod ConfigMapsSafety
pub mod Loops
pub mod NewNamespaces
pub mod Events
pub mod NamespacesSafety
use cicd_tools.Prelude.{String, ◌<>◌, Bool, true, false, Option, none, some, List, [], ◌∷◌}
use cicd_tools.Prelude.{◌==◌, if◌then◌else◌, Result, ok, err, Exec, pure, ◌>>=◌, ◌>>◌}
use cicd_tools.Dict.{Dict, insert}
use cicd_tools.Types.{ConfigSync, ConfigSyncSpec, LabelSelector}
use cicd_tools.Cluster.{Client, Selector}

abbrev pub trigger_annotation : String
trigger_annotation = "config.zyql.com/last-trigger"

-- The default of the source namespace, as the watchers compute it.
unfoldable pub watched_namespace : ConfigSyncSpec → String
watched_namespace spec = if spec.source_namespace == "" then "default" else spec.source_namespace

-- The test on the selector: one without `MatchLabels` passes, an invalid one does not.
unfoldable pub selects :
    (LabelSelector → Result Selector) → Option LabelSelector → Dict String → Bool
selects as_selector none labels = true
selects as_selector (some selector) labels = elim selector.match_labels [
  | [] ↦ true
  | entry ∷ more ↦ elim (as_selector selector) [ err e ↦ false | ok m ↦ m labels ]
]

-- A ConfigSync with a new value of the trigger annotation.
unfoldable pub touched : String → ConfigSync → ConfigSync
unfolding insert
touched value cs = record cs {
  meta = record cs.meta { annotations = insert trigger_annotation value cs.annotations };
}

module _ (c : Client) (prefix : String) (watches : ConfigSync → Bool) where
  unfoldable pub touch : ConfigSync → Exec c.World (Unit {0})
  unfolding touched
  touch cs w =
      let (now, w') = c.now w in c.config_syncs.update (touched (prefix <> c.format_time now) cs) w'

  -- The loop over the ConfigSyncs; the result says whether one was touched.
  unfoldable pub trigger_each : List ConfigSync → Bool → Exec c.World Bool
  unfolding touch
  trigger_each [] triggered = pure triggered
  trigger_each (cs ∷ items) triggered =
      if watches cs then (do touch cs; trigger_each items true) else trigger_each items triggered
