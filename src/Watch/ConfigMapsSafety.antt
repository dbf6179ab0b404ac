-- ===== src/Watch/ConfigMapsSafety.antt =====
-- `ConfigMapReconciler.Reconcile` and the config maps that it leaves alone.
use cicd_tools.Prelude.{
  String, ◌≡◌, ap, false, inl, inr, Result, ok, err, ◌<>◌, Reason-cases, arith,
}
use cicd_tools.Prelude.Keeps.{Keeps, Keeps-if, Keeps-then, Keeps-bind, Keeps-attempt}
use cicd_tools.Reconcile.{no_requeue}
use cicd_tools.Types.{Key, ConfigMap}
use cicd_tools.Cluster.{Client, everything}
use cicd_tools.Cluster.Laws.{IsLawful}
use cicd_tools.Labels.{is_synced}
use cicd_tools.Cleanup.{is_copy_of, delete_listed, delete_synced_config_maps}
use cicd_tools.Reconcile.Safety.ConfigMaps.{HoldsConfigMap, config_map-Calls}
use cicd_tools.Reconcile.Steps.{Calls}
use cicd_tools.Shield
use cicd_tools.Watch.ConfigMaps.{watches, trigger_found, trigger, fetched, reconcile}
use cicd_tools.Watch.Touching.{trigger_each-Keeps}

module _ {c : Client} {P : c.World → Type 0} (calls : Calls c P) where
  found-Keeps :
      (namespace name : String) (r : Result ConfigMap) → Keeps P (trigger_found c namespace name r)
  unfolding trigger_found
  found-Keeps namespace name (err e) w h = elim (Reason-cases e.reason) [
    | inl q ↦ rw (q, trigger_found) h
    | inr q ↦ rw (q, trigger_found) h
  ]
  found-Keeps namespace name (ok x) w h =
      Keeps-bind (c.config_syncs.list everything) _ calls.list_config_syncs
        (λ _ items _.
          trigger_each-Keeps c P calls.now calls.update_config_sync ("configmap-" <> name <> "-")
            (watches c namespace x) items false)
        w h

  trigger-Keeps : (namespace name : String) → Keeps P (trigger c namespace name)
  unfolding trigger
  trigger-Keeps namespace name =
      Keeps-attempt (c.config_maps.get (record { namespace = namespace; name = name }))
        (trigger_found c namespace name)
        (calls.get_config_map (record { namespace = namespace; name = name }))
        (λ _ r _. found-Keeps namespace name r)

  fetched-Keeps :
      (request : Key) (r : Result ConfigMap)
      → Keeps P (delete_synced_config_maps c request.namespace request.name)
      → Keeps P (fetched c request r)
  unfolding fetched
  fetched-Keeps request (err e) cascade w h = elim (Reason-cases e.reason) [
    | inl q ↦
        rw (q, fetched)
          (Keeps-then (delete_synced_config_maps c request.namespace request.name) no_requeue
            cascade w h)
    | inr q ↦ rw (q, fetched) h
  ]
  fetched-Keeps request (ok x) cascade w h =
      Keeps-if (is_synced x.labels) _ _ (λ _ _ k. k)
        (λ _.
          Keeps-then (trigger c x.namespace x.name) no_requeue (trigger-Keeps x.namespace x.name))
        w h

  -- What the calls and the cascade keep, the controller keeps.
  pub watcher-Keeps :
      (request : Key)
      → Keeps P (delete_synced_config_maps c request.namespace request.name)
      → Keeps P (reconcile c request)
  unfolding reconcile
  watcher-Keeps request cascade =
      Keeps-attempt (c.config_maps.get request) (fetched c request) (calls.get_config_map request)
        (λ _ r _. fetched-Keeps request r cascade)

module _ {c : Client} (L : IsLawful c) (cm : ConfigMap) where
  cascade-Keeps :
      (source name : String)
      → is_copy_of source name cm.meta ≡ false
      → Keeps (HoldsConfigMap L cm) (delete_synced_config_maps c source name)
  unfolding delete_synced_config_maps delete_listed
  cascade-Keeps source name spared w h =
      let kept =
        Shield.delete_listed-Stored L.config_maps cm (λ x. is_copy_of source name x.meta) everything
          (λ x _ hit same. cc (hit, spared, ap (λ y. is_copy_of source name y.meta) same)) w h in
      ground (arith, kept)

  -- With a lawful client, the config map controller, of whatever request, failed or not, leaves every
  -- stored config map alone that is not a copy of the requested one by its name and its label
  -- `synced-from`.
  pub watcher-HoldsConfigMap :
      (request : Key) (w : c.World)
      → is_copy_of request.namespace request.name cm.meta ≡ false
      → HoldsConfigMap L cm w
      → HoldsConfigMap L cm (reconcile c request w).1
  watcher-HoldsConfigMap request w spared =
      watcher-Keeps (config_map-Calls L cm) request
        (cascade-Keeps request.namespace request.name spared) w
