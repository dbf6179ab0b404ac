-- ===== src/Tests/Starting.antt =====
-- Witnesses on the start, with a manager that cannot add the check of readiness.
use cicd_tools.Prelude.{
  ◌≡◌, refl, inl, inr, List, [], ◌∷◌, ◌++◌, ok, err, other, Error, Exec, false,
}
use cicd_tools.Types.{Secret, ConfigMap}
use cicd_tools.Cluster.Memory.{memory}
use cicd_tools.Webhook.{Decoder}
use cicd_tools.Manager.{LogOptions, Manager}
use cicd_tools.Manager.Laws.{
  Registration, config_sync_controller, secret_controller, config_map_controller,
  namespace_controller, validator, liveness, running, IsManager,
}
use cicd_tools.Start.{Flags, default_flags, main}
use cicd_tools.Start.Order.{set_up_plan, main-refines}

abbrev refused : Error
refused = record { reason = other; message = "refused" }

abbrev no_decoder : (R : Type 0) → Decoder R
no_decoder R = record { decode = λ r. err refused; decode_raw = λ b. err refused }

abbrev Setup : Type 0
Setup = List (Registration memory)

abbrev note : Registration memory → Exec Setup (Unit {0})
note r s = (ok tt, s ++ r ∷ [])

abbrev desk : Manager memory
desk = record {
  State = Setup;
  RestConfig = Unit {0};
  set_logger = λ o s. s;
  get_config = λ s. (ok tt, s);
  new_manager = λ r o s. (ok tt, s);
  complete_config_sync = λ x. note (config_sync_controller x);
  complete_secret = λ x. note (secret_controller x);
  complete_config_map = λ x. note (config_map_controller x);
  complete_namespace = λ x. note (namespace_controller x);
  secret_decoder = no_decoder Secret;
  config_map_decoder = no_decoder ConfigMap;
  register = λ path h s. s ++ validator path h ∷ [];
  add_healthz_check = λ name. note (liveness name);
  add_readyz_check = λ name check s. (err refused, s);
  start = note running;
}

desk-IsManager : IsManager desk (λ s. s)
desk-IsManager = record {
  logger = λ o s. refl;
  config = λ s. refl;
  manager = λ r o s. refl;
  config_sync = λ x s. inl (refl, refl);
  secret = λ x s. inl (refl, refl);
  config_map = λ x s. inl (refl, refl);
  namespace = λ x s. inl (refl, refl);
  handler = λ path h s. refl;
  healthz = λ name s. inl (refl, refl);
  readyz = λ name check s. inr (refused, refl, refl);
  started = λ s. refl;
}

-- A command line that disables the webhooks.
abbrev unprotected : Flags → LogOptions → Flags × LogOptions
unprotected flags log = (record flags { enable_webhook = false }, log)

main-refines_example :
    (done rest : Setup) × (done ++ rest
      ≡ set_up_plan desk (record default_flags { enable_webhook = false }))
    × ((main desk unprotected []).1 ≡ done)
    × ((main desk unprotected []).0 ≡ 0 → rest ≡ [])
main-refines_example = main-refines desk (λ s. s) desk-IsManager unprotected [] refl
