-- ===== src/Manager.antt =====
-- The manager of controller-runtime, the command line and the logger, which main.go uses. They are
-- no code of the repository, so they are parameters: an unknown state of the process, and calls
-- that change it and may fail.
pub mod Laws
use cicd_tools.Prelude.{ℕ, String, Bool, Option, Result, Exec}
use cicd_tools.Prelude.Int.{ℤ}
use cicd_tools.Types.{Key, Secret, ConfigMap, Namespace, ConfigSync}
use cicd_tools.Cluster.{Client}
use cicd_tools.Watch.Events.{Filter}
use cicd_tools.Reconcile.{Requeue}
use cicd_tools.Webhook.{Decoder, Response}
use cicd_tools.Webhook

-- What is handed to `NewControllerManagedBy`: the event filter, if any, and the reconciler.
pub record Controller (W R : Type 0) : Type 0 where
  pub event_filter : Option (Filter W R)
  pub reconciler : Key → Exec W Requeue

-- `webhook.Options`
pub record WebhookOptions : Type 0 where
  pub port : ℤ
  pub cert_dir : String

-- `ctrl.Options`, the fields in use
pub record Options : Type 0 where
  pub metrics_bind_address : String
  pub health_probe_bind_address : String
  pub leader_election : Bool
  pub webhook_server : Option WebhookOptions

-- `zap.Options`, the field in use
pub record LogOptions : Type 0 where
  pub development : Bool

abbrev pub Handler : Type 0
Handler = Webhook.Request → Response

pub record Manager (c : Client) : Type 1 where
  -- The state of the process, and the configuration that `ctrl.GetConfigOrDie` reads.
  pub State : Type 0
  pub RestConfig : Type 0
  pub set_logger : LogOptions → State → State
  -- On an error, `GetConfigOrDie` exits with code 1 as `main` does.
  pub get_config : Exec State RestConfig
  pub new_manager : RestConfig → Options → Exec State (Unit {0})
  -- `Complete`, one for each type that is reconciled
  pub complete_config_sync : Controller c.World ConfigSync → Exec State (Unit {0})
  pub complete_secret : Controller c.World Secret → Exec State (Unit {0})
  pub complete_config_map : Controller c.World ConfigMap → Exec State (Unit {0})
  pub complete_namespace : Controller c.World Namespace → Exec State (Unit {0})
  -- `admission.NewDecoder`
  pub secret_decoder : Decoder Secret
  pub config_map_decoder : Decoder ConfigMap
  -- `GetWebhookServer().Register`
  pub register : String → Handler → State → State
  pub add_healthz_check : String → Exec State (Unit {0})
  -- The check is told whether the caches are in sync.
  pub add_readyz_check : String → (Bool → Result (Unit {0})) → Exec State (Unit {0})
  -- `Start` returns when the process is asked to stop, or on an error.
  pub start : Exec State (Unit {0})
