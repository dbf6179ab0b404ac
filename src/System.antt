-- ===== src/System.antt =====
-- The operator as a whole: the four controllers, one request after another in any order, and
-- whatever else writes to the cluster between two requests. A reconciliation is one step.
pub mod SecretsSafety
pub mod ConfigMapsSafety
use cicd_tools.Prelude.{String, ◌≡◌, false, Exec, arith}
use cicd_tools.Prelude.Keeps.{Keeps}
use cicd_tools.Dict.{Dict, lookup}
use cicd_tools.Types.{Key, ObjectMeta}
use cicd_tools.Cluster.{Client}
use cicd_tools.Labels.{is_synced}
use cicd_tools.Cleanup.{is_copy_of}
use cicd_tools.Reconcile
use cicd_tools.Reconcile.{Requeue}
use cicd_tools.Watch.Secrets
use cicd_tools.Watch.ConfigMaps
use cicd_tools.Watch.Namespaces

-- A request to one of the controllers.
pub data Request : Type 0 where
  for_config_sync for_secret for_config_map for_namespace : Key → Request

-- `Reconcile` of the controller that the request is for.
unfoldable pub serve : (c : Client) → Request → Exec c.World Requeue
unfolding Reconcile.reconcile Secrets.reconcile ConfigMaps.reconcile Namespaces.reconcile
serve c (for_config_sync k) = Reconcile.reconcile c k
serve c (for_secret k) = Secrets.reconcile c k
serve c (for_config_map k) = ConfigMaps.reconcile c k
serve c (for_namespace k) = Namespaces.reconcile c k

-- The worlds that are reached from a world. `other` says what the other writers can do.
pub data Run (c : Client) (other : c.World → c.World → Type 0) (w : c.World)
    : c.World → Type 0 where
  start : Run c other w w
  served : {v : c.World} (r : Request) → Run c other w v → Run c other w (serve c r v).1
  meanwhile : {u v : c.World} → Run c other w u → other u v → Run c other w v

-- What every step keeps, every run keeps.
pub Run-Keeps :
    {c : Client} {other : c.World → c.World → Type 0} {w v : c.World} (P : c.World → Type 0)
    → ((r : Request) → Keeps P (serve c r))
    → ((u v : c.World) → other u v → P u → P v)
    → Run c other w v
    → P w
    → P v
Run-Keeps P kept outside start h = h
Run-Keeps P kept outside (served r run) h = kept r _ (Run-Keeps P kept outside run h)
Run-Keeps P kept outside (meanwhile run e) h = outside _ _ e (Run-Keeps P kept outside run h)

-- An object without the operator's label is no copy.
pub not-copy_of_unmanaged :
    (source name : String) (meta : ObjectMeta)
    → is_synced meta.labels ≡ false
    → is_copy_of source name meta ≡ false
unfolding is_synced is_copy_of
not-copy_of_unmanaged source name meta h = ground arith
