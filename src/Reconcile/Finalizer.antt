-- ===== src/Reconcile/Finalizer.antt =====
-- ConfigSyncs without the operator's finalizer.
use cicd_tools.Prelude.{◌≡◌, refl, ◌++◌, ◌∷◌, [], false, is_some}
use cicd_tools.Prelude.{Bool-cases, inl, inr, arith}
use cicd_tools.Types.{ConfigSync}
use cicd_tools.Cluster.{Client}
use cicd_tools.Cluster.Laws.{IsLawful}
use cicd_tools.Labels.{config_sync_finalizer}
use cicd_tools.Slices.{contains_string}
use cicd_tools.Reconcile.{add_finalizer, finalize, handle}

module _ {c : Client} (L : IsLawful c) where
  -- Both stores are as they were.
  abbrev AreKept : c.World → c.World → Type 0
  AreKept v w = (L.secret_at v ≡ L.secret_at w) × (L.config_map_at v ≡ L.config_map_at w)

  add_finalizer-AreKept : (cs : ConfigSync) (w : c.World) → AreKept (add_finalizer c cs w).1 w
  unfolding add_finalizer
  add_finalizer-AreKept cs w =
      let finalizers = cs.finalizers ++ config_sync_finalizer ∷ [] in
      let marked = record cs { meta = record cs.meta { finalizers = finalizers } } in
      ground (arith, L.config_syncs_update marked w)

  -- With a lawful client, a reconciliation of a ConfigSync that does not have the operator's
  -- finalizer, whether it is being deleted or not, has no effect on any secret or config map.
  pub handle-AreKept :
      (cs : ConfigSync) (w : c.World)
      → contains_string cs.finalizers config_sync_finalizer ≡ false
      → AreKept (handle c cs w).1 w
  unfolding handle finalize
  handle-AreKept cs w h = elim (Bool-cases (is_some cs.deletion_timestamp)) [
    | inl p ↦ rw (p, h) (refl, refl)
    | inr p ↦ rw (p, h) (add_finalizer-AreKept cs w)
  ]
