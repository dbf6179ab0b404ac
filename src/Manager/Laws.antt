-- ===== src/Manager/Laws.antt =====
-- What controller-runtime documents of the manager: what has been set up, in order. A call that
-- fails sets nothing up.
use cicd_tools.Prelude.{String, Bool, ◌≡◌, ◌⊎◌, List, [], ◌∷◌, ◌++◌, Result, ok, err, Error, Exec}
use cicd_tools.Types.{Secret, ConfigMap, Namespace, ConfigSync}
use cicd_tools.Cluster.{Client}
use cicd_tools.Manager.{Controller, Options, LogOptions, Handler, Manager}

-- What can be set up; `running` is the call of `Start`.
pub data Registration (c : Client) : Type 0 where
  config_sync_controller : Controller c.World ConfigSync → Registration c
  secret_controller : Controller c.World Secret → Registration c
  config_map_controller : Controller c.World ConfigMap → Registration c
  namespace_controller : Controller c.World Namespace → Registration c
  validator : String → Handler → Registration c
  liveness : String → Registration c
  readiness : String → (Bool → Result (Unit {0})) → Registration c
  running : Registration c

module _ {c : Client} (m : Manager c) (registered : m.State → List (Registration c)) where
  -- A call that sets one thing up, or fails and sets up nothing.
  abbrev pub SetsUp : Exec m.State (Unit {0}) → Registration c → Type 0
  SetsUp call r =
      (s : m.State)
      → (((call s).0 ≡ ok tt) × (registered (call s).1 ≡ registered s ++ r ∷ []))
        ⊎ ((e : Error) × ((call s).0 ≡ err e) × (registered (call s).1 ≡ registered s))

  pub record IsManager : Type 0 where
    pub logger : (o : LogOptions) (s : m.State) → registered (m.set_logger o s) ≡ registered s
    pub config : (s : m.State) → registered (m.get_config s).1 ≡ registered s
    pub manager :
        (r : m.RestConfig) (o : Options) (s : m.State)
        → registered (m.new_manager r o s).1 ≡ registered s
    pub config_sync :
        (x : Controller c.World ConfigSync)
        → SetsUp (m.complete_config_sync x) (config_sync_controller x)
    pub secret :
        (x : Controller c.World Secret) → SetsUp (m.complete_secret x) (secret_controller x)
    pub config_map :
        (x : Controller c.World ConfigMap)
        → SetsUp (m.complete_config_map x) (config_map_controller x)
    pub namespace :
        (x : Controller c.World Namespace)
        → SetsUp (m.complete_namespace x) (namespace_controller x)
    pub handler :
        (path : String) (h : Handler) (s : m.State)
        → registered (m.register path h s) ≡ registered s ++ validator path h ∷ []
    pub healthz : (name : String) → SetsUp (m.add_healthz_check name) (liveness name)
    pub readyz :
        (name : String) (check : Bool → Result (Unit {0}))
        → SetsUp (m.add_readyz_check name check) (readiness name check)
    -- `Start` has been called, whatever it returns.
    pub started : (s : m.State) → registered (m.start s).1 ≡ registered s ++ running ∷ []
