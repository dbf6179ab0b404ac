-- ===== src/Tests/Admission.antt =====
-- Witnesses on the webhooks.
use cicd_tools.Prelude.{Error, ◌≡◌, refl, ◌↔◌, true, false, [], ◌∷◌, ok}
use cicd_tools.Dict.{lookup}
use cicd_tools.Types.{Secret, ConfigMap}
use cicd_tools.Labels.{synced_from_label}
use cicd_tools.Webhook.{
  bad_request, UserInfo, Request, Decoder, is_operator_service_account, handle_secret,
  handle_config_map,
}
use cicd_tools.Webhook.Protection.{
  IsUnread, is_denied, IsCopyRequest, handle_secret-denied_iff, handle_config_map-denied_iff,
  handle_secret-label_removal,
}
use cicd_tools.Tests.{left_over, app, secret_with}

abbrev user : UserInfo
user = record { username = "kim"; groups = "developers" ∷ [] }

abbrev update : Request
update = record { user_info = user; operation = "UPDATE"; object = 1 ∷ []; old_object = 2 ∷ [] }

-- The new object has lost the label `synced-by`, the old one has both.
abbrev renamed : Secret
renamed = secret_with "old" "db" ((synced_from_label, "default") ∷ [])

abbrev secret_decoder : Decoder Secret
secret_decoder = record { decode = λ req. ok renamed; decode_raw = λ raw. ok left_over }

abbrev config_map_decoder : Decoder ConfigMap
config_map_decoder = record { decode = λ req. ok app; decode_raw = λ raw. ok app }

handle_secret-denied_iff_example :
    ((is_denied (handle_secret secret_decoder update) ≡ true) ↔ (
      (is_operator_service_account user ≡ false)
      × IsCopyRequest (λ s. s.meta) secret_decoder update))
    × ((e : Error)
        → (handle_secret secret_decoder update ≡ bad_request e)
          ↔ ((is_operator_service_account user ≡ false) × IsUnread secret_decoder update e))
handle_secret-denied_iff_example = handle_secret-denied_iff secret_decoder update

handle_config_map-denied_iff_example :
    ((is_denied (handle_config_map config_map_decoder update) ≡ true) ↔ (
      (is_operator_service_account user ≡ false)
      × IsCopyRequest (λ cm. cm.meta) config_map_decoder update))
    × ((e : Error)
        → (handle_config_map config_map_decoder update ≡ bad_request e)
          ↔ ((is_operator_service_account user ≡ false) × IsUnread config_map_decoder update e))
handle_config_map-denied_iff_example = handle_config_map-denied_iff config_map_decoder update

handle_secret-label_removal_example : is_denied (handle_secret secret_decoder update) ≡ false
unfolding lookup
handle_secret-label_removal_example =
    handle_secret-label_removal secret_decoder update left_over renamed "default" "shared" refl refl
      (refl, refl) refl refl
