-- ===== src/System/ConfigMapsSafety.antt =====
-- The config maps that the whole operator leaves alone.
use cicd_tools.Prelude.{String, ◌≡◌, ap, ◌∙◌, false, some}
use cicd_tools.Prelude.Keeps.{Keeps}
use cicd_tools.Types.{ConfigMap}
use cicd_tools.Cluster.{Client, everything}
use cicd_tools.Cluster.Laws.{IsLawful, key_of}
use cicd_tools.Labels.{is_synced}
use cicd_tools.Cleanup.{is_copy_of, delete_synced_secrets}
use cicd_tools.Shield
use cicd_tools.Reconcile.Safety.ConfigMaps.{
  HoldsConfigMap, config_map-Calls, reconcile-HoldsConfigMap,
}
use cicd_tools.Watch.ConfigMapsSafety.{watcher-HoldsConfigMap}
use cicd_tools.Watch.SecretsSafety
use cicd_tools.Watch.NamespacesSafety
use cicd_tools.System.{
  Request, for_config_sync, for_secret, for_config_map, for_namespace, serve, Run, Run-Keeps,
  not-copy_of_unmanaged,
}

module _ {c : Client} (L : IsLawful c) (cm : ConfigMap)
    (unmanaged : is_synced cm.labels ≡ false) where
  cascade :
      (source name : String) → Keeps (HoldsConfigMap L cm) (delete_synced_secrets c source name)
  unfolding delete_synced_secrets
  cascade source name w h =
      ap (λ f. f (key_of cm.meta))
        (Shield.rest-list_then L.secrets (λ x. is_copy_of source name x.meta) everything w)
      ∙ h

  serve-HoldsConfigMap : (r : Request) → Keeps (HoldsConfigMap L cm) (serve c r)
  unfolding serve
  serve-HoldsConfigMap (for_config_sync k) w h = reconcile-HoldsConfigMap L k cm w unmanaged h
  serve-HoldsConfigMap (for_config_map k) w h =
      watcher-HoldsConfigMap L cm k w (not-copy_of_unmanaged k.namespace k.name cm.meta unmanaged) h
  serve-HoldsConfigMap (for_secret k) w h =
      SecretsSafety.watcher-Keeps (config_map-Calls L cm) k (cascade k.namespace k.name) w h
  serve-HoldsConfigMap (for_namespace k) w h =
      NamespacesSafety.watcher-Keeps (config_map-Calls L cm) k w h

  -- The operator as a whole respects what it does not manage: with a lawful client, after any
  -- requests to its four controllers, in any order, failed or not, and whatever other writers do
  -- between them that leaves this config map alone, a stored config map without the operator's
  -- label is still there, unchanged.
  pub Run-HoldsConfigMap :
      (other : c.World → c.World → Type 0) (w v : c.World)
      → ((x y : c.World) → other x y → HoldsConfigMap L cm x → HoldsConfigMap L cm y)
      → Run c other w v
      → L.config_map_at w (key_of cm.meta) ≡ some cm
      → L.config_map_at v (key_of cm.meta) ≡ some cm
  Run-HoldsConfigMap other w v outside run h =
      Run-Keeps (HoldsConfigMap L cm) serve-HoldsConfigMap outside run h
