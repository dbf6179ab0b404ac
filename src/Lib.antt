-- ===== src/Lib.antt =====
-- Config Sync Operator: the Kubernetes operator of operators/config-sync-zyql, which copies Secrets
-- and ConfigMaps from a source namespace to target namespaces, as the `ConfigSync` objects say.
--
-- The parts and their files. The paths of the source are below operators/config-sync-zyql/.
-- - Types: the fields of api/v1/configsync_types.go and of the Kubernetes objects in use.
-- - Cluster: the client of the API server, the label selectors and the clock. These are code of
--   controller-runtime, so they are parameters: a world of an unknown type, and calls on it that may
--   fail at any time. Cluster/Laws states what the documentation of Kubernetes promises of get, list,
--   create, update and delete for a stretch of time in which nobody else writes (`IsLawful`), and what
--   holds besides while lists and deletions (`IsReliable`) or look-ups and writes (`IsWritable`) do not
--   fail; a lawful, reliable or writable client in the results is one with these laws. Cluster/Memory
--   is a client in memory for which all of them are proved, on which the witnesses run the operator.
-- - Labels, Slices, Namespaces, Sources, Copies, Cleanup, Interval, Decimal and Reconcile:
--   controllers/configsync_controller.go. Namespaces is `getTargetNamespaces` and `filterNamespaces`,
--   Sources is `listSourceSecrets` and `listSourceConfigMaps`, Copies is `syncSecret` and
--   `syncConfigMap`, Cleanup is `cleanupSyncedResources`, `cleanupRemovedNamespaces`,
--   `deleteSyncedSecrets` and `deleteSyncedConfigMaps`, Interval is `getSyncInterval`, Decimal
--   is the `%d` of Go's fmt for a count, and Reconcile is `Reconcile` with its three ways: the
--   deletion, the finalizer, and the loop over the targets with the status written at the end.
-- - Plan: what a reconciliation should leave in a store, as a function on stores (`expected`, and
--   `withdrawn` for a ConfigSync that is being deleted), without calls, order or loops; its child
--   modules compare the reconciliation with it, step by step.
-- - Shield and Removal: lemmas on what the calls leave alone and on what the deletions remove.
-- - Watch: the controllers that start a reconciliation by writing an annotation to a ConfigSync.
--   Watch/Secrets, Watch/ConfigMaps and Watch/Namespaces are controllers/secret_controller.go,
--   configmap_controller.go and namespace_controller.go, with their event filters; DataEqual is the
--   comparison of the data in the filters for updates, and Watch/Events has the filters as functions
--   on events.
--   Watch/Touched states what is relied on of the clock (`IsClock`).
-- - Webhook: controllers/webhook.go, the admission of requests for copies. The decoder is a parameter.
-- - System: the four controllers together, as runs that serve their requests in any order, with other
--   writers between them.
-- - Manager: the manager of controller-runtime, the flags' parser and the logger, as parameters;
--   Manager/Laws states what is documented of the order in which things are set up. Start: main.go,
--   the `SetupWithManager` functions and the set-up of the webhooks, with those as parameters.
-- - Prelude: shared names, results, and actions over a world (`Exec`), which are run in order as the
--   code makes its calls. Dict: Go maps as association lists; the theorems on them that need the keys
--   to be distinct say so.
--
-- Reading the model. A returned error is a value of `Result`, and the world that comes with it is the
-- one at that point. Errors that the code logs and passes over are passed over. Log lines are left
-- out. Every loop of the code runs over a finite list and is a structural recursion. The digits of a
-- count in the message of the status are found with fuel of the number plus one (Decimal/Fuel). A Go
-- `int` is a `ℤ` in 64 bits, and a duration wraps around as the product of two of them does in Go;
-- counters of objects are natural numbers. The order in which Go runs through a map makes no
-- difference to the loops modelled here. The calls of `flag.Parse` and `GetConfigOrDie` that end the
-- process by themselves are not followed further.
--
-- Not modelled: the generated deep copies of api/v1/zz_generated.deepcopy.go; the scheme of
-- api/v1/groupversion_info.go; `InjectDecoder`; the fields of Kubernetes objects that no code of the
-- operator reads or writes, resource versions among them. Other writers act between two
-- reconciliations, not within one. All else in the repository is configuration.
pub mod Prelude
pub mod Dict
pub mod Types
pub mod Cluster
pub mod Labels
pub mod Slices
pub mod Namespaces
pub mod Sources
pub mod Copies
pub mod Cleanup
pub mod Interval
pub mod Decimal
pub mod Plan
pub mod Reconcile
pub mod DataEqual
pub mod Shield
pub mod Removal
pub mod Watch
pub mod Webhook
pub mod System
pub mod Manager
pub mod Start
mod Tests
