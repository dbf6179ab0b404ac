-- ===== src/Watch/Reached.antt =====
-- The ConfigSyncs that the controllers of Secrets, ConfigMaps and Namespaces touch, and those that
-- they leave alone.
use cicd_tools.Prelude.{
  ℕ, ◌≤◌, ◌≢◌, refl, arith, eq_iff, List, Bool, String, ◌≡◌, true, false, Option, some, ok, ◌<>◌,
  ◌==◌,
}
use cicd_tools.Dict.{lookup}
use cicd_tools.Dict.Laws.{lookup-insert}
use cicd_tools.Types.{Key, Secret, ConfigMap, ConfigSync}
use cicd_tools.Cluster.{Client, everything}
use cicd_tools.Cluster.Laws.{IsStore, IsReliable, IsWritable, key_of}
use cicd_tools.Labels.{service_account_token}
use cicd_tools.Watch.{trigger_annotation, touched, trigger_each}
use cicd_tools.Watch.Secrets
use cicd_tools.Watch.ConfigMaps
use cicd_tools.Watch.Namespaces
use cicd_tools.Watch.Touched.{IsClock, listed-touches}

-- The ConfigSync `x` is `cs` with this value of the annotation that starts its reconciliation, and
-- nothing else of it is changed.
pub record IsNudged (value : String) (cs x : ConfigSync) : Type 0 where
  pub annotated : lookup "config.zyql.com/last-trigger" x.annotations ≡ some value
  pub other_annotations :
      (key : String)
      → key ≢ "config.zyql.com/last-trigger"
      → lookup key x.annotations ≡ lookup key cs.annotations
  pub same_name : x.name ≡ cs.name
  pub same_namespace : x.namespace ≡ cs.namespace
  pub same_labels : x.labels ≡ cs.labels
  pub same_finalizers : x.finalizers ≡ cs.finalizers
  pub same_deletion : x.deletion_timestamp ≡ cs.deletion_timestamp
  pub same_spec : x.spec ≡ cs.spec
  pub same_status : x.status ≡ cs.status

touched-IsNudged : (value : String) (cs : ConfigSync) → IsNudged value cs (touched value cs)
unfolding touched
touched-IsNudged value cs = record {
  annotated = ground (
    arith,
    lookup-insert trigger_annotation trigger_annotation value cs.annotations,
    eq_iff trigger_annotation trigger_annotation,
  );
  other_annotations = λ key apart. ground (
    arith,
    lookup-insert trigger_annotation key value cs.annotations,
    eq_iff trigger_annotation key,
  );
  same_name = refl;
  same_namespace = refl;
  same_labels = refl;
  same_finalizers = refl;
  same_deletion = refl;
  same_spec = refl;
  same_status = refl;
}

module _ {X : Type 0} (c : Client) {sync_at : c.World → Key → Option ConfigSync}
    {rest : c.World → X} (K : IsStore c.config_syncs (λ cs. cs.meta) sync_at rest)
    (D : IsReliable c.config_syncs (λ cs. cs.meta) sync_at)
    (E : IsWritable c.config_syncs (λ cs. cs.meta) sync_at) {since : c.World → ℕ}
    (clock : IsClock c sync_at since) where
  -- What stands in the world `v` under the key of `cs`, if it was touched from the time `begin` on.
  abbrev pub IsStarted : String → ℕ → ConfigSync → c.World → Type 0
  IsStarted prefix begin cs v =
      (x : ConfigSync) × (sync_at v (key_of cs.meta) ≡ some x)
      × ((time : ℕ) × (begin ≤ time) × IsNudged (prefix <> c.format_time time) cs x)

  listed-starts :
      (prefix : String) (watches : ConfigSync → Bool) (items : List ConfigSync) (w : c.World)
      → (c.config_syncs.list everything w).0 ≡ ok items
      → (cs : ConfigSync) → sync_at w (key_of cs.meta) ≡ some cs
      → let v =
          (trigger_each c prefix watches items false (c.config_syncs.list everything w).1).1 in
        (watches cs ≡ true → IsStarted prefix (since w) cs v)
        × (watches cs ≡ false → sync_at v (key_of cs.meta) ≡ some cs)
  listed-starts prefix watches items w listed cs stored =
      let (touches, leaves) =
        listed-touches c K E clock prefix watches (since w) items w (omega arith) listed cs
          stored in
      (
        λ hit.
            let (time, late, there) = touches hit in
            (_, there, (time, late, touched-IsNudged (prefix <> c.format_time time) cs)),
        leaves,
      )

  -- A namespace was created. With a store of ConfigSyncs whose calls succeed, and a clock that leaves
  -- it alone and does not go back, the stored ConfigSyncs that name the namespace and do not exclude
  -- it get, in the annotation that starts their reconciliation, the words `namespace-created-`, the
  -- name and a time that is not before the start, with nothing else of them changed. All other
  -- stored ConfigSyncs stay as they are.
  pub namespace_trigger-touches :
      (ns : String) (w : c.World) (cs : ConfigSync)
      → sync_at w (key_of cs.meta) ≡ some cs
      → let v = (Namespaces.trigger c ns w).1 in
        (Namespaces.should_sync ns cs.spec ≡ true
          → IsStarted ("namespace-created-" <> ns <> "-") (since w) cs v)
        × (Namespaces.should_sync ns cs.spec ≡ false → sync_at v (key_of cs.meta) ≡ some cs)
  unfolding Namespaces.trigger
  namespace_trigger-touches ns w cs stored =
      let (items, listed) = D.list_ok everything w in
      rw listed (
        listed-starts ("namespace-created-" <> ns <> "-") (λ x. Namespaces.should_sync ns x.spec)
          items w listed cs stored)

  -- A source secret was found. With a store of ConfigSyncs whose calls succeed, and a clock that
  -- leaves it alone and does not go back, and unless the secret is a token of a service account, the
  -- stored ConfigSyncs that watch it get, in the annotation that starts their reconciliation, the
  -- word `secret-`, the name and a time that is not before the start, with nothing else of them
  -- changed. All other stored ConfigSyncs stay as they are.
  pub secret_trigger-touches :
      (namespace name : String) (secret : Secret) (w : c.World) (cs : ConfigSync)
      → (secret.type == service_account_token) ≡ false
      → sync_at w (key_of cs.meta) ≡ some cs
      → let v = (Secrets.trigger_found c namespace name (ok secret) w).1 in
        (Secrets.watches c namespace secret cs ≡ true
          → IsStarted ("secret-" <> name <> "-") (since w) cs v)
        × (Secrets.watches c namespace secret cs ≡ false → sync_at v (key_of cs.meta) ≡ some cs)
  unfolding Secrets.trigger_found
  secret_trigger-touches namespace name secret w cs plain stored =
      let (items, listed) = D.list_ok everything w in
      rw plain (
        rw listed (
          listed-starts ("secret-" <> name <> "-") (Secrets.watches c namespace secret) items w
            listed cs stored))

  -- A source config map was found. With a store of ConfigSyncs whose calls succeed, and a clock that
  -- leaves it alone and does not go back, the stored ConfigSyncs that watch it get, in the annotation
  -- that starts their reconciliation, the word `configmap-`, the name and a time that is not before
  -- the start, with nothing else of them changed. All other stored ConfigSyncs stay as they are.
  pub config_map_trigger-touches :
      (namespace name : String) (cm : ConfigMap) (w : c.World) (cs : ConfigSync)
      → sync_at w (key_of cs.meta) ≡ some cs
      → let v = (ConfigMaps.trigger_found c namespace name (ok cm) w).1 in
        (ConfigMaps.watches c namespace cm cs ≡ true
          → IsStarted ("configmap-" <> name <> "-") (since w) cs v)
        × (ConfigMaps.watches c namespace cm cs ≡ false → sync_at v (key_of cs.meta) ≡ some cs)
  unfolding ConfigMaps.trigger_found
  config_map_trigger-touches namespace name cm w cs stored =
      let (items, listed) = D.list_ok everything w in
      rw listed (
        listed-starts ("configmap-" <> name <> "-") (ConfigMaps.watches c namespace cm) items w
          listed cs stored)
