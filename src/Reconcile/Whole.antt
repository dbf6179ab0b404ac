-- ===== src/Reconcile/Whole.antt =====
-- The reconciliation as a whole keeps what its steps keep.
use cicd_tools.Prelude.{String, ◌≡◌, Bool, none, List, [], In}
use cicd_tools.Prelude.{Result, ok, err, ◌>>=◌, is_some}
use cicd_tools.Prelude.{arith}
use cicd_tools.Prelude.Keeps.{Keeps, Keeps-if, Keeps-bind, Keeps-attempt}
use cicd_tools.Types.{ConfigSync}
use cicd_tools.Cluster.{Api, Client, everything}
use cicd_tools.Labels.{config_sync_finalizer}
use cicd_tools.Slices.{contains_string}
use cicd_tools.Namespaces.{source_namespace, mark, get_target_namespaces}
use cicd_tools.Namespaces.Targets.{IsOpen, get_target_namespaces-IsOpen}
use cicd_tools.Cleanup.{
  delete_where, delete_listed, act, is_left_over, delete_copies, cleanup_targets,
  cleanup_synced_resources, cleanup_removed_namespaces,
}
use cicd_tools.Reconcile.{no_progress, sync_targets, synchronise, add_finalizer, finalize, handle}
use cicd_tools.Reconcile.Steps.{Steps, Sweeps, targets-Keeps, sync_namespaces-Keeps}

module _ {c : Client} {cs : ConfigSync} {P : c.World → Type 0} (steps : Steps c cs P) where
  open steps use {
    list_namespaces, update_config_sync, update_status, now, list_secrets, list_config_maps,
    drop_secrets, drop_config_maps,
  }

  abbrev source : String
  source = source_namespace cs.spec

  -- A list call followed by deletions among what it returned.
  listed_then-Keeps :
      {R : Type 0} (api : Api c.World R) (doomed : R → Bool)
      → ((w : c.World)
          → P w
          → P (delete_listed api doomed (api.list everything w).0 (api.list everything w).1))
      → Keeps P (do items ← api.list everything; act (delete_where api doomed items))
  unfolding delete_listed
  listed_then-Keeps api doomed drop w h = ground (arith, drop w h)

  -- The world after the first half, if the secrets could be listed.
  abbrev drop_secrets_of : List String → c.World → c.World
  drop_secrets_of targets w =
      let (r, w') = c.secrets.list everything w in
      delete_listed c.secrets (λ s. is_left_over cs source (mark targets []) s.meta) r w'

  cleanup_removed_namespaces-Keeps :
      (targets : List String) → Keeps P (cleanup_removed_namespaces c cs source targets)
  unfolding cleanup_removed_namespaces delete_listed
  cleanup_removed_namespaces-Keeps targets w h = ground (
    arith,
    drop_secrets (mark targets []) w h,
    drop_config_maps (mark targets []) (drop_secrets_of targets w)
        (drop_secrets (mark targets []) w h),
  )

  sync_targets-Keeps :
      (targets : List String)
      → ((ns : String) → In ns targets → IsOpen source ns)
      → Keeps P (sync_targets c cs source targets)
  unfolding sync_targets
  sync_targets-Keeps targets o w h =
      Keeps-bind (c.update_status _) _ (update_status _) (λ _ _ _ v k. k) _
        (now _ (sync_namespaces-Keeps steps targets no_progress w o h))

  synchronise-Keeps : Keeps P (synchronise c cs)
  unfolding synchronise
  synchronise-Keeps =
      Keeps-bind (get_target_namespaces c cs.spec source) _
        (targets-Keeps steps.calls cs.spec source)
        λ w targets e.
          Keeps-bind (cleanup_removed_namespaces c cs source targets) _
            (cleanup_removed_namespaces-Keeps targets)
            (λ _ _ _.
              sync_targets-Keeps targets
                (get_target_namespaces-IsOpen c cs.spec source w targets e))

  add_finalizer-Keeps : Keeps P (add_finalizer c cs)
  unfolding add_finalizer
  add_finalizer-Keeps =
      Keeps-bind (c.config_syncs.update _) _ (update_config_sync _) (λ _ _ _ w h. h)

  -- A ConfigSync that is not being deleted.
  pub live-Keeps : cs.deletion_timestamp ≡ none → Keeps P (handle c cs)
  unfolding handle
  live-Keeps live =
      Keeps-if (is_some cs.deletion_timestamp) _ _ (λ deleting. absurd (ground arith))
        (λ _.
          Keeps-if (contains_string cs.finalizers config_sync_finalizer) _ _
            (λ _. synchronise-Keeps) (λ _. add_finalizer-Keeps))

module _ {c : Client} {cs : ConfigSync} {P : c.World → Type 0} (sweeps : Sweeps c cs P) where
  open sweeps use {sweep_secrets, sweep_config_maps}

  delete_copies-Keeps :
      (targets : List String)
      → ((ns : String) → In ns targets → IsOpen (source_namespace cs.spec) ns)
      → (w : c.World) → P w
      → P (delete_copies c cs (source_namespace cs.spec) targets w)
  unfolding delete_copies
  delete_copies-Keeps targets o w h = ground (
    arith,
    sweep_secrets targets o w h,
    sweep_config_maps targets o w h,
    sweep_config_maps targets o _ (sweep_secrets targets o w h),
  )

  cleanup_targets-Keeps :
      (w : c.World) (r : Result (List String))
      → (get_target_namespaces c cs.spec (source_namespace cs.spec) w).0 ≡ r
      → Keeps P (cleanup_targets c cs r)
  unfolding cleanup_targets
  cleanup_targets-Keeps w (err e) p w' h = h
  cleanup_targets-Keeps w (ok targets) p w' h =
      delete_copies-Keeps targets
        (get_target_namespaces-IsOpen c cs.spec (source_namespace cs.spec) w targets p) w' h

  cleanup_synced_resources-Keeps : Keeps P (cleanup_synced_resources c cs)
  unfolding cleanup_synced_resources
  cleanup_synced_resources-Keeps =
      Keeps-attempt (get_target_namespaces c cs.spec (source_namespace cs.spec))
        (cleanup_targets c cs) (targets-Keeps sweeps.calls cs.spec (source_namespace cs.spec))
        cleanup_targets-Keeps

  pub finalize-Keeps : Keeps P (finalize c cs)
  unfolding finalize
  finalize-Keeps =
      Keeps-if (contains_string cs.finalizers config_sync_finalizer) _ _
        (λ _. Keeps-bind (cleanup_synced_resources c cs) _ cleanup_synced_resources-Keeps (λ _ _ _.
          Keeps-bind (c.config_syncs.update _) _ (sweeps.update_config_sync _) (λ _ _ _ w h. h)))
        (λ _ w h. h)

  pub handle-Keeps : Steps c cs P → Keeps P (handle c cs)
  unfolding handle
  handle-Keeps steps =
      Keeps-if (is_some cs.deletion_timestamp) _ _ (λ _. finalize-Keeps)
        (λ _.
          Keeps-if (contains_string cs.finalizers config_sync_finalizer) _ _
            (λ _. synchronise-Keeps steps) (λ _. add_finalizer-Keeps steps))
