-- ===== src/Watch/Loops.antt =====
-- The event filters and watchers on copies and on sources.
use cicd_tools.Prelude.{String, ◌≡◌, refl, true, false, Option, none, some, arith}
use cicd_tools.Prelude.{eq_iff, Result, ok}
use cicd_tools.Types.{Key, ObjectMeta, Secret, ConfigMap, ConfigSync, LabelSelector}
use cicd_tools.Cluster.{Client, Selector, ListOptions}
use cicd_tools.Cluster.Laws.{admits}
use cicd_tools.Namespaces.{source_namespace}
use cicd_tools.Sources.{is_source_secret, is_source_config_map, list_options}
use cicd_tools.Copies.Spec.{IsSecretCopy, IsConfigMapCopy, is_synced_of_IsCopyMeta}
use cicd_tools.Reconcile.{no_requeue}
use cicd_tools.Watch.{watched_namespace, selects}
use cicd_tools.Watch.Secrets
use cicd_tools.Watch.ConfigMaps

-- Both ways to compute the default of the source namespace agree.
watched_namespace-source : (cs : ConfigSync) → watched_namespace cs.spec ≡ source_namespace cs.spec
unfolding watched_namespace source_namespace
watched_namespace-source cs = ground arith

-- What a list call under the selector would return, the watcher's test on the selector passes.
selects_of_admits :
    (as_selector : LabelSelector → Result Selector) (ns : String) (selector : Option LabelSelector)
    (o : ListOptions) (meta : ObjectMeta)
    → list_options as_selector ns selector ≡ ok o
    → admits o meta ≡ true
    → selects as_selector selector meta.labels ≡ true
unfolding list_options selects
selects_of_admits as_selector ns none o meta e h = refl
selects_of_admits as_selector ns (some selector) o meta e h = ground arith

module _ (c : Client) (cs : ConfigSync) (o : ListOptions) where
  -- No source is missed: a secret that a ConfigSync would copy, since it stands in its source
  -- namespace, is a source and is admitted by the options of the list call, is one for which the
  -- creation event passes the test on this ConfigSync and for which the watcher touches it.
  pub Secret-watched :
      (secret : Secret)
      → list_options c.as_selector (source_namespace cs.spec) cs.spec.secret_selector ≡ ok o
      → secret.namespace ≡ source_namespace cs.spec
      → admits o secret.meta ≡ true
      → is_source_secret secret ≡ true
      → (Secrets.matches c secret cs ≡ true) × (Secrets.watches c secret.namespace secret cs ≡ true)
  unfolding Secrets.matches Secrets.watches is_source_secret
  Secret-watched secret e here asked source =
      let test =
        selects_of_admits c.as_selector (source_namespace cs.spec) cs.spec.secret_selector o
          secret.meta e asked in
      ground (
        arith,
        test,
        watched_namespace-source cs,
        eq_iff secret.namespace (watched_namespace cs.spec),
        eq_iff (watched_namespace cs.spec) secret.namespace,
      )

  -- No source is missed: a config map that a ConfigSync would copy, since it stands in its source
  -- namespace and is admitted by the options of the list call, is one for which the creation event
  -- passes the test on this ConfigSync and for which the watcher touches it.
  pub ConfigMap-watched :
      (cm : ConfigMap)
      → list_options c.as_selector (source_namespace cs.spec) cs.spec.config_map_selector ≡ ok o
      → cm.namespace ≡ source_namespace cs.spec
      → admits o cm.meta ≡ true
      → (ConfigMaps.matches c cm cs ≡ true) × (ConfigMaps.watches c cm.namespace cm cs ≡ true)
  unfolding ConfigMaps.matches ConfigMaps.watches
  ConfigMap-watched cm e here asked =
      let test =
        selects_of_admits c.as_selector (source_namespace cs.spec) cs.spec.config_map_selector o
          cm.meta e asked in
      ground (
        arith,
        test,
        watched_namespace-source cs,
        eq_iff cm.namespace (watched_namespace cs.spec),
        eq_iff (watched_namespace cs.spec) cm.namespace,
      )

module _ (c : Client) (target_ns source_ns name : String) where
  -- A copy of a secret is ignored everywhere: its creation, its change and its deletion pass no
  -- filter, a reconciliation that finds it does nothing, and it is no source for further copies.
  pub IsSecretCopy-ignored :
      (source copy old : Secret) (request : Key) (w : c.World)
      → IsSecretCopy source copy target_ns source_ns name
      → (Secrets.on_create c copy w ≡ (false, w))
        × (Secrets.on_update old copy ≡ false)
        × (Secrets.on_delete copy ≡ false)
        × (Secrets.fetched c request (ok copy) w ≡ (ok no_requeue, w))
        × (is_source_secret copy ≡ false)
  unfolding Secrets.on_create Secrets.on_update Secrets.on_delete Secrets.fetched is_source_secret
  IsSecretCopy-ignored source copy old request w h =
      let mark = is_synced_of_IsCopyMeta source.meta copy.meta target_ns source_ns name h.meta in
      (ground arith, ground arith, ground arith, ground arith, ground arith)

  -- A copy of a config map is ignored everywhere: its creation, its change and its deletion pass no
  -- filter, a reconciliation that finds it does nothing, and it is no source for further copies.
  pub IsConfigMapCopy-ignored :
      (source copy old : ConfigMap) (request : Key) (w : c.World)
      → IsConfigMapCopy source copy target_ns source_ns name
      → (ConfigMaps.on_create c copy w ≡ (false, w))
        × (ConfigMaps.on_update old copy ≡ false)
        × (ConfigMaps.on_delete copy ≡ false)
        × (ConfigMaps.fetched c request (ok copy) w ≡ (ok no_requeue, w))
        × (is_source_config_map copy ≡ false)
  unfolding ConfigMaps.on_create ConfigMaps.on_update ConfigMaps.on_delete ConfigMaps.fetched
      is_source_config_map
  IsConfigMapCopy-ignored source copy old request w h =
      let mark = is_synced_of_IsCopyMeta source.meta copy.meta target_ns source_ns name h.meta in
      (ground arith, ground arith, ground arith, ground arith, ground arith)
