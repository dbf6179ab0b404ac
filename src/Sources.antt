-- ===== src/Sources.antt =====
-- `listSourceSecrets` and `listSourceConfigMaps` of
-- operators/config-sync-zyql/controllers/configsync_controller.go.
use cicd_tools.Prelude.{String, Bool, false, not, Option, none, some, List, ◌==◌, if◌then◌else◌}
use cicd_tools.Prelude.{Result, ok, err, Exec, pure, fail, ◌>>=◌, select}
use cicd_tools.Types.{Secret, ConfigMap, LabelSelector}
use cicd_tools.Cluster.{Client, Selector, ListOptions, within}
use cicd_tools.Labels.{is_synced, service_account_token}

-- The `continue` tests of the loop over the listed secrets.
unfoldable pub is_source_secret : Secret → Bool
is_source_secret secret =
    if secret.type == service_account_token then false else not (is_synced secret.labels)

unfoldable pub is_source_config_map : ConfigMap → Bool
is_source_config_map cm = not (is_synced cm.labels)

-- The options of the list call; an invalid selector is an error.
unfoldable pub list_options :
    (LabelSelector → Result Selector) → String → Option LabelSelector → Result ListOptions
list_options as_selector namespace none = ok (within namespace)
list_options as_selector namespace (some selector) = elim (as_selector selector) [
  | ok m ↦ ok (record (within namespace) { selector = some m })
  | err e ↦ err e
]

module _ (c : Client) (namespace : String) (selector : Option LabelSelector) where
  unfoldable pub list_source_secrets : Exec c.World (List Secret)
  unfolding list_options
  list_source_secrets = elim (list_options c.as_selector namespace selector) [
    | err e ↦ fail e
    | ok options ↦ do items ← c.secrets.list options; pure (select is_source_secret items)
  ]

  unfoldable pub list_source_config_maps : Exec c.World (List ConfigMap)
  unfolding list_options
  list_source_config_maps = elim (list_options c.as_selector namespace selector) [
    | err e ↦ fail e
    | ok options ↦ do items ← c.config_maps.list options; pure (select is_source_config_map items)
  ]
