-- ===== src/Start/Order.antt =====
-- The order in which the start sets things up.
use cicd_tools.Prelude.{
  String, ◌≡◌, refl, sym, ap, ◌∙◌, inl, inr, some, none, List, [], ◌∷◌, ◌++◌, Result, ok, err, Exec,
  pure, continue, ◌>>=◌, if◌then◌else◌, arith, Bool-cases,
}
use mathlib.Core.List.{append_assoc, append-nil}
use cicd_tools.Cluster.{Client}
use cicd_tools.Watch.Events.{secret_filter, config_map_filter, namespace_filter}
use cicd_tools.Reconcile
use cicd_tools.Watch.Secrets
use cicd_tools.Watch.ConfigMaps
use cicd_tools.Watch.Namespaces
use cicd_tools.Webhook.{handle_secret, handle_config_map}
use cicd_tools.Manager.{Handler, LogOptions, Manager}
use cicd_tools.Manager.Laws.{
  Registration, config_sync_controller, secret_controller, config_map_controller,
  namespace_controller, validator, liveness, readiness, running, SetsUp, IsManager,
}
use cicd_tools.Start.{
  Flags, default_flags, log_options, manager_options, ready_check, setup_config_sync, setup_secret,
  setup_config_map, setup_namespace, setup_secret_webhook, setup_config_map_webhook, setup_webhooks,
  start_up, exit_code, main,
}

ok_of_exit_code : (r : Result (Unit {0})) → exit_code r ≡ 0 → r ≡ ok tt
unfolding exit_code
ok_of_exit_code (ok u) h = refl
ok_of_exit_code (err e) h = absurd (omega arith)

-- The validators, with the paths that they serve.
unfoldable pub validators : {c : Client} → Manager c → Flags → List (Registration c)
validators m flags =
    if flags.enable_webhook
    then (validator "/validate-v1-secret" (handle_secret m.secret_decoder)
        ∷ validator "/validate-v1-configmap" (handle_config_map m.config_map_decoder)
        ∷ [])
    else []

-- All that should be set up, in order: the controllers with their filters and reconcilers, the
-- validators if they are asked for, the checks, and only then the manager runs.
unfoldable pub set_up_plan : {c : Client} → Manager c → Flags → List (Registration c)
unfolding validators
set_up_plan {c} m flags =
    config_sync_controller (record { event_filter = none; reconciler = Reconcile.reconcile c })
    ∷ secret_controller
        (record { event_filter = some (secret_filter c); reconciler = Secrets.reconcile c })
    ∷ config_map_controller
        (record { event_filter = some (config_map_filter c); reconciler = ConfigMaps.reconcile c })
    ∷ namespace_controller
        (record { event_filter = some (namespace_filter c); reconciler = Namespaces.reconcile c })
    ∷ (validators m flags ++ (liveness "healthz" ∷ readiness "readyz" ready_check ∷ running ∷ []))

module _ {c : Client} (m : Manager c) (registered : m.State → List (Registration c)) where
  -- An action that sets up a first part of a list, and all of it if it succeeds.
  abbrev pub Extends : {A : Type 0} → Exec m.State A → List (Registration c) → Type 0
  Extends {A} call rs =
      (s : m.State)
      → (done rest : List (Registration c)) × (done ++ rest ≡ rs)
        × (registered (call s).1 ≡ registered s ++ done)
        × ((a : A) → (call s).0 ≡ ok a → rest ≡ [])

  Extends-bind :
      {A B : Type 0} (call : Exec m.State A) (f : A → Exec m.State B)
      (rs ss : List (Registration c))
      → Extends call rs
      → ((a : A) → Extends (f a) ss)
      → Extends (call >>= f) (rs ++ ss)
  Extends-bind {A} {B} call f rs ss h k s = go (call s).0 refl
    where
      go :
          (r : Result A)
          → (call s).0 ≡ r
          → (done rest : List (Registration c)) × (done ++ rest ≡ rs ++ ss)
            × (registered (continue r f (call s).1).1 ≡ registered s ++ done)
            × ((b : B) → (continue r f (call s).1).0 ≡ ok b → rest ≡ [])
      go (err e) p =
          let (done, rest, split, log, full) = h s in
          (
            done,
            rest ++ ss,
            sym (append_assoc done rest ss) ∙ ap (λ l. l ++ ss) split,
            log,
            λ b q. cc,
          )
      go (ok a) p =
          let (done, rest, split, log, full) = h s in
          let (done', rest', split', log', full') = k a (call s).1 in
          let all : done ≡ rs =
            sym (append-nil done) ∙ ap (λ l. done ++ l) (sym (full a p)) ∙ split in
          (
            done ++ done',
            rest',
            append_assoc done done' rest' ∙ ap (λ l. done ++ l) split' ∙ ap (λ l. l ++ ss) all,
            log' ∙ ap (λ l. l ++ done') log ∙ append_assoc (registered s) done done',
            full',
          )

  Extends-one :
      (call : Exec m.State (Unit {0})) (r : Registration c)
      → SetsUp m registered call r
      → Extends call (r ∷ [])
  Extends-one call r h s = elim (h s) [
    | inl (fine, log) ↦ (r ∷ [], [], refl, log, λ a p. refl)
    | inr (e, failed, log) ↦
        ([], r ∷ [], refl, log ∙ sym (append-nil (registered s)), λ a p. cc (failed, p))
  ]

  -- One thing is set up, and the rest follows.
  Extends-then :
      (call next : Exec m.State (Unit {0})) (r : Registration c) (rs : List (Registration c))
      → SetsUp m registered call r
      → Extends next rs
      → Extends (call >>= λ _. next) (r ∷ rs)
  Extends-then call next r rs h k =
      Extends-bind call (λ _. next) (r ∷ []) rs (Extends-one call r h) (λ _. k)

  -- An action that sets nothing up.
  Extends-none :
      {A : Type 0} (call : Exec m.State A)
      → ((s : m.State) → registered (call s).1 ≡ registered s)
      → Extends call []
  Extends-none call h s = ([], [], refl, h s ∙ sym (append-nil (registered s)), λ a p. refl)

module _ {c : Client} (m : Manager c) (registered : m.State → List (Registration c))
    (L : IsManager m registered) where
  webhook-SetsUp :
      (path : String) (h : Handler)
      → SetsUp m registered (λ s. (ok tt, m.register path h s)) (validator path h)
  webhook-SetsUp path h s = inl (refl, L.handler path h s)

  setup_webhooks-Extends :
      (flags : Flags) → Extends m registered (setup_webhooks m flags) (validators m flags)
  unfolding setup_webhooks validators setup_secret_webhook setup_config_map_webhook
  setup_webhooks-Extends flags = elim (Bool-cases flags.enable_webhook) [
    | inl on ↦ rw on (
        Extends-then m registered (setup_secret_webhook m) (setup_config_map_webhook m) _ _
          (webhook-SetsUp _ _)
          (Extends-one m registered (setup_config_map_webhook m) _ (webhook-SetsUp _ _)))
    | inr off ↦ rw off (Extends-none m registered (pure tt) (λ s. refl))
  ]

  checks-Extends :
      Extends m registered
        (m.add_healthz_check "healthz" >>= λ _.
          m.add_readyz_check "readyz" ready_check >>= λ _. m.start)
        (liveness "healthz" ∷ readiness "readyz" ready_check ∷ running ∷ [])
  checks-Extends = Extends-then m registered _ _ _ _ (L.healthz "healthz") (
      Extends-then m registered _ _ _ _ (L.readyz "readyz" ready_check)
        (λ s. (running ∷ [], [], refl, L.started s, λ a p. refl)))

  start_up-Extends : (flags : Flags) → Extends m registered (start_up m flags) (set_up_plan m flags)
  unfolding start_up set_up_plan setup_config_sync setup_secret setup_config_map setup_namespace
  start_up-Extends flags =
      Extends-bind m registered m.get_config _ [] _
        (Extends-none m registered m.get_config L.config)
        (λ config.
          Extends-bind m registered (m.new_manager config (manager_options flags)) _ [] _
            (Extends-none m registered _ (L.manager config (manager_options flags)))
            (λ _. Extends-then m registered (setup_config_sync m) _ _ _ (L.config_sync _) (
              Extends-then m registered (setup_secret m) _ _ _ (L.secret _) (
                Extends-then m registered (setup_config_map m) _ _ _ (L.config_map _) (
                  Extends-then m registered (setup_namespace m) _ _ _ (L.namespace _) (
                    Extends-bind m registered (setup_webhooks m flags) _ (validators m flags) _
                      (setup_webhooks-Extends flags) (λ _. checks-Extends)))))))

  -- With a manager that behaves as documented, `main` sets things up in the order of the plan of
  -- the flags that were parsed, and stops at the first failure: what has been set up is a first part
  -- of the plan, and it is the whole plan, of which running the manager is the end, if the process
  -- exits with code 0.
  pub main-refines :
      (parse : Flags → LogOptions → Flags × LogOptions) (s : m.State)
      → registered s ≡ []
      → (done rest : List (Registration c)) × (done ++ rest
          ≡ set_up_plan m (parse default_flags (log_options default_flags)).0)
        × (registered (main m parse s).1 ≡ done)
        × ((main m parse s).0 ≡ 0 → rest ≡ [])
  unfolding main exit_code
  main-refines parse s empty =
      let (flags, log) = parse default_flags (log_options default_flags) in
      let (done, rest, split, logged, full) = start_up-Extends flags (m.set_logger log s) in
      (
        done,
        rest,
        split,
        logged ∙ ap (λ l. l ++ done) (L.logger log s ∙ empty),
        λ zero. full tt (ok_of_exit_code (start_up m flags (m.set_logger log s)).0 zero),
      )
