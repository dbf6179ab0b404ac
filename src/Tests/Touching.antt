-- ===== src/Tests/Touching.antt =====
-- Witnesses on the ConfigSyncs that are touched.
use cicd_tools.Prelude.{◌≡◌, ◌≤◌, refl, true, false, some, ok, arith}
use cicd_tools.Types.{ConfigSync}
use cicd_tools.Cluster.Memory.{
  Objects, config_sync_in, memory, memory_config_syncs-IsStore, memory_config_syncs-IsReliable,
  memory_config_syncs-IsWritable, find, store_api,
}
use cicd_tools.Watch.Secrets
use cicd_tools.Watch.Namespaces
use cicd_tools.Watch.Touched.{IsClock}
use cicd_tools.Watch.Reached.{IsStarted, namespace_trigger-touches, secret_trigger-touches}
use cicd_tools.Tests.{at, db, shared, world}

update-later : (cs : ConfigSync) (w : Objects) → w.clock ≤ (memory.config_syncs.update cs w).1.clock
unfolding store_api
update-later cs w = ground arith

memory-IsClock : IsClock memory config_sync_in (λ w. w.clock)
unfolding store_api
memory-IsClock = record {
  now_at = λ w. refl;
  now_since = λ w. omega arith;
  now_later = λ w. omega arith;
  list_later = λ w. omega arith;
  update_later = update-later;
}

namespace_trigger-touches_example :
    (Namespaces.should_sync "qa" shared.spec ≡ true
      → IsStarted memory memory_config_syncs-IsStore memory_config_syncs-IsReliable
          memory_config_syncs-IsWritable memory-IsClock "namespace-created-qa-" 100 shared
          (Namespaces.trigger memory "qa" world).1)
    × (Namespaces.should_sync "qa" shared.spec ≡ false
        → config_sync_in (Namespaces.trigger memory "qa" world).1 (at "" "shared") ≡ some shared)
unfolding find
namespace_trigger-touches_example =
    namespace_trigger-touches memory memory_config_syncs-IsStore memory_config_syncs-IsReliable
      memory_config_syncs-IsWritable memory-IsClock "qa" world shared refl

secret_trigger-touches_example :
    (Secrets.watches memory "default" db shared ≡ true
      → IsStarted memory memory_config_syncs-IsStore memory_config_syncs-IsReliable
          memory_config_syncs-IsWritable memory-IsClock "secret-db-" 100 shared
          (Secrets.trigger_found memory "default" "db" (ok db) world).1)
    × (Secrets.watches memory "default" db shared ≡ false
        → config_sync_in
            (Secrets.trigger_found memory "default" "db" (ok db) world).1
            (at "" "shared")
          ≡ some shared)
unfolding find
secret_trigger-touches_example =
    secret_trigger-touches memory memory_config_syncs-IsStore memory_config_syncs-IsReliable
      memory_config_syncs-IsWritable memory-IsClock "default" "db" db world shared refl refl
