-- ===== src/System/SecretsSafety.antt =====
-- The secrets that the whole operator leaves alone.
use cicd_tools.Prelude.{String, ◌≡◌, ap, ◌∙◌, false, some}
use cicd_tools.Prelude.Keeps.{Keeps}
use cicd_tools.Types.{Secret}
use cicd_tools.Cluster.{Client, everything}
use cicd_tools.Cluster.Laws.{IsLawful, key_of}
use cicd_tools.Labels.{is_synced}
use cicd_tools.Cleanup.{is_copy_of, delete_synced_config_maps}
use cicd_tools.Shield
use cicd_tools.Reconcile.Safety.Secrets.{HoldsSecret, secret-Calls, reconcile-HoldsSecret}
use cicd_tools.Watch.SecretsSafety.{watcher-HoldsSecret}
use cicd_tools.Watch.ConfigMapsSafety
use cicd_tools.Watch.NamespacesSafety
use cicd_tools.System.{
  Request, for_config_sync, for_secret, for_config_map, for_namespace, serve, Run, Run-Keeps,
  not-copy_of_unmanaged,
}

module _ {c : Client} (L : IsLawful c) (s : Secret) (unmanaged : is_synced s.labels ≡ false) where
  cascade :
      (source name : String) → Keeps (HoldsSecret L s) (delete_synced_config_maps c source name)
  unfolding delete_synced_config_maps
  cascade source name w h =
      ap (λ f. f (key_of s.meta))
        (Shield.rest-list_then L.config_maps (λ x. is_copy_of source name x.meta) everything w)
      ∙ h

  serve-HoldsSecret : (r : Request) → Keeps (HoldsSecret L s) (serve c r)
  unfolding serve
  serve-HoldsSecret (for_config_sync k) w h = reconcile-HoldsSecret L k s w unmanaged h
  serve-HoldsSecret (for_secret k) w h =
      watcher-HoldsSecret L s k w (not-copy_of_unmanaged k.namespace k.name s.meta unmanaged) h
  serve-HoldsSecret (for_config_map k) w h =
      ConfigMapsSafety.watcher-Keeps (secret-Calls L s) k (cascade k.namespace k.name) w h
  serve-HoldsSecret (for_namespace k) w h = NamespacesSafety.watcher-Keeps (secret-Calls L s) k w h

  -- The operator as a whole respects what it does not manage: with a lawful client, after any
  -- requests to its four controllers, in any order, failed or not, and whatever other writers do
  -- between them that leaves this secret alone, a stored secret without the operator's label is
  -- still there, unchanged.
  pub Run-HoldsSecret :
      (other : c.World → c.World → Type 0) (w v : c.World)
      → ((x y : c.World) → other x y → HoldsSecret L s x → HoldsSecret L s y)
      → Run c other w v
      → L.secret_at w (key_of s.meta) ≡ some s
      → L.secret_at v (key_of s.meta) ≡ some s
  Run-HoldsSecret other w v outside run h =
      Run-Keeps (HoldsSecret L s) serve-HoldsSecret outside run h
