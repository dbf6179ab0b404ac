-- ===== src/Start.antt =====
-- The start of the operator: operators/config-sync-zyql/main.go, `SetupWithManager` of the
-- controllers and the set-up functions of controllers/webhook.go there.
pub mod Order
use cicd_tools.Prelude.{ℕ, String, Bool, true, false, none, some, if◌then◌else◌, Error, other}
use cicd_tools.Prelude.{Result, ok, err, Exec, pure, ◌>>=◌, ◌>>◌}
use cicd_tools.Prelude.Int.{ℤ, pos}
use cicd_tools.Cluster.{Client}
use cicd_tools.Watch.Events.{secret_filter, config_map_filter, namespace_filter}
use cicd_tools.Reconcile
use cicd_tools.Watch.Secrets
use cicd_tools.Watch.ConfigMaps
use cicd_tools.Watch.Namespaces
use cicd_tools.Webhook.{handle_secret, handle_config_map}
use cicd_tools.Manager.{WebhookOptions, Options, LogOptions, Manager}

-- The variables behind the flags.
pub record Flags : Type 0 where
  pub metrics_addr : String
  pub probe_addr : String
  pub enable_webhook : Bool
  pub webhook_port : ℤ
  pub cert_dir : String
  pub enable_deployment : Bool

abbrev pub default_flags : Flags
default_flags = record {
  metrics_addr = ":8080";
  probe_addr = ":8081";
  enable_webhook = true;
  webhook_port = pos 9443;
  cert_dir = "/tmp/k8s-webhook-server/serving-certs";
  enable_deployment = false;
}

unfoldable pub log_options : Flags → LogOptions
log_options flags = record { development = flags.enable_deployment }

unfoldable pub manager_options : Flags → Options
manager_options flags = record {
  metrics_bind_address = flags.metrics_addr;
  health_probe_bind_address = flags.probe_addr;
  leader_election = false;
  webhook_server =
      if flags.enable_webhook
      then some (record { port = flags.webhook_port; cert_dir = flags.cert_dir })
      else none;
}

-- The check of readiness, told whether `WaitForCacheSync` succeeded.
unfoldable pub ready_check : Bool → Result (Unit {0})
ready_check synced =
    if synced then ok tt else err (record { reason = other; message = "cache not synced" })

-- `os.Exit(1)` after an error; a process whose `main` returns exits with 0.
unfoldable pub exit_code : Result (Unit {0}) → ℕ
exit_code (ok u) = 0
exit_code (err e) = 1

module _ {c : Client} (m : Manager c) where
  -- `SetupWithManager` of the four controllers
  unfoldable pub setup_config_sync : Exec m.State (Unit {0})
  unfolding Reconcile.reconcile
  setup_config_sync =
      m.complete_config_sync (record { event_filter = none; reconciler = Reconcile.reconcile c })

  unfoldable pub setup_secret : Exec m.State (Unit {0})
  unfolding secret_filter Secrets.reconcile
  setup_secret =
      m.complete_secret
        (record { event_filter = some (secret_filter c); reconciler = Secrets.reconcile c })

  unfoldable pub setup_config_map : Exec m.State (Unit {0})
  unfolding config_map_filter ConfigMaps.reconcile
  setup_config_map =
      m.complete_config_map
        (record { event_filter = some (config_map_filter c); reconciler = ConfigMaps.reconcile c })

  unfoldable pub setup_namespace : Exec m.State (Unit {0})
  unfolding namespace_filter Namespaces.reconcile
  setup_namespace =
      m.complete_namespace
        (record { event_filter = some (namespace_filter c); reconciler = Namespaces.reconcile c })

  unfoldable pub setup_secret_webhook : Exec m.State (Unit {0})
  unfolding handle_secret
  setup_secret_webhook s =
      (ok tt, m.register "/validate-v1-secret" (handle_secret m.secret_decoder) s)

  unfoldable pub setup_config_map_webhook : Exec m.State (Unit {0})
  unfolding handle_config_map
  setup_config_map_webhook s =
      (ok tt, m.register "/validate-v1-configmap" (handle_config_map m.config_map_decoder) s)

  unfoldable pub setup_webhooks : Flags → Exec m.State (Unit {0})
  unfolding setup_secret_webhook setup_config_map_webhook
  setup_webhooks flags =
      if flags.enable_webhook then (do setup_secret_webhook; setup_config_map_webhook) else pure tt

  -- All that comes after the flags; the first error ends it.
  unfoldable pub start_up : Flags → Exec m.State (Unit {0})
  unfolding manager_options setup_config_sync setup_secret setup_config_map setup_namespace
      setup_webhooks ready_check
  start_up flags = do
    config ← m.get_config
    m.new_manager config (manager_options flags)
    setup_config_sync
    setup_secret
    setup_config_map
    setup_namespace
    setup_webhooks flags
    m.add_healthz_check "healthz"
    m.add_readyz_check "readyz" ready_check
    m.start

  -- `main`. `parse` is `flag.Parse`, which sets the variables and the logger's options from the
  -- command line; the latter have got their own value before.
  unfoldable pub main : (Flags → LogOptions → Flags × LogOptions) → m.State → ℕ × m.State
  unfolding log_options start_up exit_code
  main parse s =
      let (flags, log) = parse default_flags (log_options default_flags) in
      let (result, s') = start_up flags (m.set_logger log s) in (exit_code result, s')
