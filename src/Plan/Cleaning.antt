-- ===== src/Plan/Cleaning.antt =====
-- The clean-up of the namespaces that are no targets any more, against the plan.
use cicd_tools.Prelude.{String, ◌≡◌, refl, sym, ap, ◌∙◌, List, ok}
use cicd_tools.Types.{Key, Secret, ConfigMap, ConfigSync}
use cicd_tools.Cluster.{Client, everything}
use cicd_tools.Cluster.Laws.{CanList, IsLawful, IsReliable, IsWritable}
use cicd_tools.Cleanup.{delete_where, cleanup_removed_namespaces}
use cicd_tools.Shield
use cicd_tools.Plan.{pruned}
use cicd_tools.Plan.Pruning.{pruned-at}
use cicd_tools.Plan.Assembly.{doomed, stale_of_doomed, IsFree}

-- The world after the two list calls and the deletions.
module _ (c : Client) (cs : ConfigSync) (source : String) (targets : List String) where
  abbrev secrets_gone : List Secret → c.World → c.World
  secrets_gone items w =
      delete_where c.secrets (doomed (λ s. s.meta) cs source targets) items
        (c.secrets.list everything w).1

  abbrev config_maps_gone : List ConfigMap → c.World → c.World
  config_maps_gone items w =
      delete_where c.config_maps (doomed (λ cm. cm.meta) cs source targets) items
        (c.config_maps.list everything w).1

  world-cleanup :
      (w : c.World) (items : List Secret) (others : List ConfigMap)
      → (c.secrets.list everything w).0 ≡ ok items
      → (c.config_maps.list everything (secrets_gone items w)).0 ≡ ok others
      → cleanup_removed_namespaces c cs source targets w
        ≡ (ok tt, config_maps_gone others (secrets_gone items w))
  unfolding cleanup_removed_namespaces
  world-cleanup w items others p q = rw (p, cleanup_removed_namespaces) (rw q refl)

module _ {c : Client} (L : IsLawful c) (RS : IsReliable c.secrets (λ s. s.meta) L.secret_at)
    (RC : CanList c.config_maps) (cs : ConfigSync) (source : String) (targets : List String)
    (w : c.World) where
  pub secrets-cleaned :
      IsWritable c.secrets (λ s. s.meta) L.secret_at
      → IsFree (λ s. s.meta) cs source targets (L.secret_at w)
      → (v : c.World) → L.secret_at v ≡ L.secret_at w
      → ((cleanup_removed_namespaces c cs source targets v).0 ≡ ok tt)
        × ((k : Key)
            → L.secret_at (cleanup_removed_namespaces c cs source targets v).1 k
              ≡ pruned (doomed (λ s. s.meta) cs source targets) (L.secret_at w k))
  secrets-cleaned WS free v same =
      let (items, p) = RS.list_ok everything v in
      let (others, q) = RC everything (secrets_gone c cs source targets items v) in
      let e = world-cleanup c cs source targets v items others p q in
      (
        ap (λ z. z.0) e,
        λ k.
            ap (λ z. L.secret_at z.1 k) e
            ∙ ap (λ f. f k)
                (Shield.rest-delete_where L.config_maps _ others _
                  ∙ L.config_maps.list_rest everything _)
            ∙ pruned-at L.secrets RS WS (doomed (λ s. s.meta) cs source targets) v items p k
                (λ x there hit.
                  free k x (sym (ap (λ f. f k) same) ∙ there)
                    (stale_of_doomed (λ s. s.meta) cs source targets x hit).0
                    (stale_of_doomed (λ s. s.meta) cs source targets x hit).1)
            ∙ ap (λ f. pruned (doomed (λ s. s.meta) cs source targets) (f k)) same,
      )

module _ {c : Client} (L : IsLawful c) (RS : CanList c.secrets)
    (RC : IsReliable c.config_maps (λ cm. cm.meta) L.config_map_at) (cs : ConfigSync)
    (source : String) (targets : List String) (w : c.World) where
  pub config_maps-cleaned :
      IsWritable c.config_maps (λ cm. cm.meta) L.config_map_at
      → IsFree (λ cm. cm.meta) cs source targets (L.config_map_at w)
      → (v : c.World) → L.config_map_at v ≡ L.config_map_at w
      → ((cleanup_removed_namespaces c cs source targets v).0 ≡ ok tt)
        × ((k : Key)
            → L.config_map_at (cleanup_removed_namespaces c cs source targets v).1 k
              ≡ pruned (doomed (λ cm. cm.meta) cs source targets) (L.config_map_at w k))
  config_maps-cleaned WC free v same =
      let (items, p) = RS everything v in
      let u = secrets_gone c cs source targets items v in
      let (others, q) = RC.list_ok everything u in
      let e = world-cleanup c cs source targets v items others p q in
      let kept : L.config_map_at u ≡ L.config_map_at w =
        Shield.rest-delete_where L.secrets _ items _ ∙ L.secrets.list_rest everything v ∙ same in
      (
        ap (λ z. z.0) e,
        λ k.
            ap (λ z. L.config_map_at z.1 k) e
            ∙ pruned-at L.config_maps RC WC (doomed (λ cm. cm.meta) cs source targets) u others q k
                (λ x there hit.
                  free k x (sym (ap (λ f. f k) kept) ∙ there)
                    (stale_of_doomed (λ cm. cm.meta) cs source targets x hit).0
                    (stale_of_doomed (λ cm. cm.meta) cs source targets x hit).1)
            ∙ ap (λ f. pruned (doomed (λ cm. cm.meta) cs source targets) (f k)) kept,
      )
