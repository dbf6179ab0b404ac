-- ===== src/Watch/Events.antt =====
-- The event filters of the controllers of Secrets, ConfigMaps and Namespaces: the `predicate.Funcs`
-- in `SetupWithManager` of operators/config-sync-zyql/controllers/secret_controller.go,
-- configmap_controller.go and namespace_controller.go.
use cicd_tools.Prelude.{Bool, false}
use cicd_tools.Types.{Secret, ConfigMap, Namespace}
use cicd_tools.Cluster.{Client}
use cicd_tools.Watch.Secrets
use cicd_tools.Watch.ConfigMaps
use cicd_tools.Watch.Namespaces

-- The event types of controller-runtime's package `event`.
pub data Event (R : Type 0) : Type 0 where
  created deleted generic : R → Event R
  updated : R → R → Event R

-- Whether an event passes.
abbrev pub Filter : Type 0 → Type 0 → Type 0
Filter W R = Event R → W → Bool × W

module _ (c : Client) where
  unfoldable pub secret_filter : Filter c.World Secret
  unfolding Secrets.on_create Secrets.on_update Secrets.on_delete
  secret_filter (created secret) w = Secrets.on_create c secret w
  secret_filter (updated old_secret new_secret) w = (Secrets.on_update old_secret new_secret, w)
  secret_filter (deleted secret) w = (Secrets.on_delete secret, w)
  secret_filter (generic secret) w = (false, w)

  unfoldable pub config_map_filter : Filter c.World ConfigMap
  unfolding ConfigMaps.on_create ConfigMaps.on_update ConfigMaps.on_delete
  config_map_filter (created cm) w = ConfigMaps.on_create c cm w
  config_map_filter (updated old_cm new_cm) w = (ConfigMaps.on_update old_cm new_cm, w)
  config_map_filter (deleted cm) w = (ConfigMaps.on_delete cm, w)
  config_map_filter (generic cm) w = (false, w)

  unfoldable pub namespace_filter : Filter c.World Namespace
  unfolding Namespaces.on_create
  namespace_filter (created ns) w = (Namespaces.on_create ns, w)
  namespace_filter (updated old_ns new_ns) w = (false, w)
  namespace_filter (deleted ns) w = (false, w)
  namespace_filter (generic ns) w = (false, w)
