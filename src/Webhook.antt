-- ===== src/Webhook.antt =====
-- operators/config-sync-zyql/controllers/webhook.go. The decoder is code of controller-runtime: a
-- parameter, which reads an object from the request or from raw bytes.
pub mod Protection
use cicd_tools.Prelude.{String, ◌<>◌, Bool, true, false, Option, none, some, List, [], ◌∷◌}
use cicd_tools.Prelude.{◌==◌, if◌then◌else◌, Error, Result, ok, err}
use cicd_tools.Slices.{contains_string}
use cicd_tools.Dict.{Dict, lookup}
use cicd_tools.Types.{Bytes, ObjectMeta, Secret, ConfigMap}
use cicd_tools.Labels.{synced_from_label, synced_by_label}

-- `authenticationv1.UserInfo`
pub record UserInfo : Type 0 where
  pub username : String
  pub groups : List String

-- The fields of `admission.Request` in use.
pub record Request : Type 0 where
  pub user_info : UserInfo
  pub operation : String
  pub object : Bytes
  pub old_object : Bytes

-- `admission.Response`; an error has the status code 400.
pub data Response : Type 0 where
  allowed : String → Response
  denied : String → Response
  bad_request : Error → Response

-- `admission.Decoder`
pub record Decoder (R : Type 0) : Type 0 where
  pub decode : Request → Result R
  pub decode_raw : Bytes → Result R

unfoldable pub is_operator_service_account : UserInfo → Bool
unfolding contains_string
is_operator_service_account user =
    if user.username == "system:serviceaccount:config-sync-system:config-sync-operator"
    then true
    else contains_string user.groups "system:masters"

unfoldable pub managed_message : String → String → String → String → String
managed_message kind name synced_from synced_by =
    kind <> " '" <> name <> "' is managed by ConfigSync (synced-from: " <> synced_from
    <> ", synced-by: " <> synced_by <> ") and cannot be modified or deleted manually. "
    <> "Please modify the source " <> kind <> " in namespace '" <> synced_from <> "' instead."

-- `if hasSyncedFrom && hasSyncedBy`
unfoldable pub judge_labels : String → String → Option String → Option String → Response
unfolding managed_message
judge_labels kind name (some synced_from) (some synced_by) =
    denied (managed_message kind name synced_from synced_by)
judge_labels kind name _ _ = allowed ""

unfoldable pub judge : String → Result ObjectMeta → Response
unfolding judge_labels lookup
judge kind (err e) = bad_request e
judge kind (ok meta) =
    judge_labels kind meta.name (lookup synced_from_label meta.labels)
      (lookup synced_by_label meta.labels)

-- The `switch` on the operation: which object is looked at, if any.
unfoldable pub examined : {R : Type 0} → Decoder R → Request → Option (Result R)
examined d req =
    if req.operation == "DELETE"
    then some (d.decode_raw req.old_object)
    else if req.operation == "UPDATE"
    then some (d.decode req)
    else none

abbrev pub meta_of : {R : Type 0} → (R → ObjectMeta) → Result R → Result ObjectMeta
meta_of meta (ok r) = ok (meta r)
meta_of meta (err e) = err e

unfoldable pub handle_secret : Decoder Secret → Request → Response
unfolding is_operator_service_account examined judge
handle_secret d req =
    if is_operator_service_account req.user_info
    then allowed "operator service account"
    else elim (examined d req) [
      | none ↦ allowed ""
      | some secret ↦ judge "Secret" (meta_of (λ s. s.meta) secret)
    ]

unfoldable pub handle_config_map : Decoder ConfigMap → Request → Response
unfolding is_operator_service_account examined judge
handle_config_map d req =
    if is_operator_service_account req.user_info
    then allowed "operator service account"
    else elim (examined d req) [
      | none ↦ allowed ""
      | some config_map ↦ judge "ConfigMap" (meta_of (λ cm. cm.meta) config_map)
    ]
