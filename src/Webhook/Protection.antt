-- ===== src/Webhook/Protection.antt =====
-- Which requests the webhooks deny.
use cicd_tools.Prelude.{
  String, ◌≡◌, refl, ◌≢◌, ◌↔◌, ◌⊎◌, inl, inr, true, false, Option, none, some, arith,
}
use cicd_tools.Prelude.{Error, Bool, Bool-cases, eq_iff, if◌then◌else◌, Result, ok, err, In}
use cicd_tools.Dict.{lookup}
use cicd_tools.Types.{ObjectMeta, Secret, ConfigMap}
use cicd_tools.Labels.{synced_from_label, synced_by_label}
use cicd_tools.Slices.Laws.{contains_string_iff}
use cicd_tools.Webhook.{
  UserInfo, Request, Response, allowed, denied, bad_request, Decoder, is_operator_service_account,
  judge_labels, judge, examined, meta_of, handle_secret, handle_config_map,
}

-- The accounts that the webhooks take for the operator: its service account, and the members of the
-- group `system:masters`.
pub is_operator_service_account_iff :
    (user : UserInfo)
    → (is_operator_service_account user ≡ true) ↔ (
        (user.username ≡ "system:serviceaccount:config-sync-system:config-sync-operator")
        ⊎ In "system:masters" user.groups)
unfolding is_operator_service_account
is_operator_service_account_iff user = ground (
  arith,
  eq_iff user.username "system:serviceaccount:config-sync-system:config-sync-operator",
  contains_string_iff user.groups "system:masters",
)

-- Both labels are there.
abbrev pub IsMarked : ObjectMeta → String → String → Type 0
IsMarked meta source name =
    (lookup synced_from_label meta.labels ≡ some source)
    × (lookup synced_by_label meta.labels ≡ some name)

abbrev pub is_denied : Response → Bool
is_denied (denied message) = true
is_denied _ = false

-- The object that a request is about: the old one of a DELETE, the new one of an UPDATE.
abbrev pub IsAbout : {R : Type 0} → Decoder R → Request → R → Type 0
IsAbout d req r =
    ((req.operation ≡ "DELETE") × (d.decode_raw req.old_object ≡ ok r))
    ⊎ ((req.operation ≡ "UPDATE") × (d.decode req ≡ ok r))

-- That object carries both labels of a copy.
abbrev pub IsCopyRequest : {R : Type 0} → (R → ObjectMeta) → Decoder R → Request → Type 0
IsCopyRequest {R} meta d req =
    (r : R) × IsAbout d req r
    × (lookup synced_from_label (meta r).labels ≢ none)
    × (lookup synced_by_label (meta r).labels ≢ none)

examined_iff :
    {R : Type 0} (d : Decoder R) (req : Request) (r : R)
    → (examined d req ≡ some (ok r)) ↔ IsAbout d req r
unfolding examined
examined_iff d req r =
    ground (
      arith,
      eq_iff req.operation "DELETE",
      eq_iff req.operation "UPDATE",
      eq_iff "UPDATE" "DELETE",
    )

-- That object cannot be decoded.
abbrev pub IsUnread : {R : Type 0} → Decoder R → Request → Error → Type 0
IsUnread d req e =
    ((req.operation ≡ "DELETE") × (d.decode_raw req.old_object ≡ err e))
    ⊎ ((req.operation ≡ "UPDATE") × (d.decode req ≡ err e))

examined-err_iff :
    {R : Type 0} (d : Decoder R) (req : Request) (e : Error)
    → (examined d req ≡ some (err e)) ↔ IsUnread d req e
unfolding examined
examined-err_iff d req e =
    ground (
      arith,
      eq_iff req.operation "DELETE",
      eq_iff req.operation "UPDATE",
      eq_iff "UPDATE" "DELETE",
    )

-- What a handler says of the object that it looks at.
abbrev verdict : {R : Type 0} → String → (R → ObjectMeta) → Option (Result R) → Response
verdict kind meta none = allowed ""
verdict kind meta (some r) = judge kind (meta_of meta r)

module _ {R : Type 0} (kind : String) (meta : R → ObjectMeta) where
  verdict-denied :
      (o : Option (Result R))
      → is_denied (verdict kind meta o) ≡ true
      → (r : R) × (o ≡ some (ok r))
        × (lookup synced_from_label (meta r).labels ≢ none)
        × (lookup synced_by_label (meta r).labels ≢ none)
  unfolding judge judge_labels
  verdict-denied none h = cc
  verdict-denied (some (err e)) h = cc
  verdict-denied (some (ok r)) h = (r, refl, ground arith, ground arith)

  denied-verdict :
      (r : R)
      → lookup synced_from_label (meta r).labels ≢ none
      → lookup synced_by_label (meta r).labels ≢ none
      → is_denied (verdict kind meta (some (ok r))) ≡ true
  unfolding judge judge_labels
  denied-verdict r from by = ground arith

  verdict-bad_request :
      (o : Option (Result R)) (e : Error) → verdict kind meta o ≡ bad_request e → o ≡ some (err e)
  unfolding judge judge_labels
  verdict-bad_request none e h = ground arith
  verdict-bad_request (some (err f)) e h = ground arith
  verdict-bad_request (some (ok r)) e h = ground arith

module _ (kind : String) {R : Type 0} (meta : R → ObjectMeta) (d : Decoder R) (req : Request) where
  abbrev handled : Response
  handled =
      if is_operator_service_account req.user_info
      then allowed "operator service account"
      else verdict kind meta (examined d req)

  handled_denied :
      is_denied handled ≡ true
      → (is_operator_service_account req.user_info ≡ false) × IsCopyRequest meta d req
  handled_denied h = elim (Bool-cases (is_operator_service_account req.user_info)) [
    | inl own ↦ absurd (ground arith)
    | inr stranger ↦
        let (r, found, from, by) = verdict-denied kind meta (examined d req) (ground arith) in
        (stranger, (r, (examined_iff d req r).0 found, from, by))
  ]

  denied_handled :
      is_operator_service_account req.user_info ≡ false
      → IsCopyRequest meta d req
      → is_denied handled ≡ true
  denied_handled stranger (r, about, from, by) =
      rw (stranger, (examined_iff d req r).1 about) (denied-verdict kind meta r from by)

  handled-bad_request :
      (e : Error)
      → handled ≡ bad_request e
      → (is_operator_service_account req.user_info ≡ false) × IsUnread d req e
  handled-bad_request e h = elim (Bool-cases (is_operator_service_account req.user_info)) [
    | inl own ↦ absurd (ground arith)
    | inr stranger ↦
        let unread = verdict-bad_request kind meta (examined d req) e (ground (arith, h)) in
        (stranger, (examined-err_iff d req e).0 unread)
  ]

  bad_request-handled :
      (e : Error)
      → is_operator_service_account req.user_info ≡ false
      → IsUnread d req e
      → handled ≡ bad_request e
  unfolding judge
  bad_request-handled e stranger unread = rw (stranger, (examined-err_iff d req e).1 unread) refl

-- A request to write a secret is denied exactly when it does not come from the operator or an
-- administrator, it is a DELETE whose old object, or an UPDATE whose new object, can be decoded,
-- and that object carries both labels of a copy. It is answered with an error exactly when it does
-- not come from them and that object cannot be decoded, and the error is that of the decoder.
pub handle_secret-denied_iff :
    (d : Decoder Secret) (req : Request)
    → ((is_denied (handle_secret d req) ≡ true)
        ↔ ((is_operator_service_account req.user_info ≡ false) × IsCopyRequest (λ s. s.meta) d req))
      × ((e : Error)
          → (handle_secret d req ≡ bad_request e)
            ↔ ((is_operator_service_account req.user_info ≡ false) × IsUnread d req e))
unfolding handle_secret
handle_secret-denied_iff d req = (
  (
    λ h. handled_denied "Secret" (λ s. s.meta) d req (ground (arith, h)),
    λ (stranger, copy). ground (arith, denied_handled "Secret" (λ s. s.meta) d req stranger copy),
  ),
  λ e. (
    λ h. handled-bad_request "Secret" (λ s. s.meta) d req e h,
    λ (stranger, unread). bad_request-handled "Secret" (λ s. s.meta) d req e stranger unread,
  ),
)

-- A request to write a config map is denied exactly when it does not come from the operator or an
-- administrator, it is a DELETE whose old object, or an UPDATE whose new object, can be decoded,
-- and that object carries both labels of a copy. It is answered with an error exactly when it does
-- not come from them and that object cannot be decoded, and the error is that of the decoder.
pub handle_config_map-denied_iff :
    (d : Decoder ConfigMap) (req : Request)
    → ((is_denied (handle_config_map d req) ≡ true) ↔ (
        (is_operator_service_account req.user_info ≡ false) × IsCopyRequest (λ cm. cm.meta) d req))
      × ((e : Error)
          → (handle_config_map d req ≡ bad_request e)
            ↔ ((is_operator_service_account req.user_info ≡ false) × IsUnread d req e))
unfolding handle_config_map
handle_config_map-denied_iff d req = (
  (
    λ h. handled_denied "ConfigMap" (λ cm. cm.meta) d req (ground (arith, h)),
    λ (stranger, copy).
        ground (arith, denied_handled "ConfigMap" (λ cm. cm.meta) d req stranger copy),
  ),
  λ e. (
    λ h. handled-bad_request "ConfigMap" (λ cm. cm.meta) d req e h,
    λ (stranger, unread). bad_request-handled "ConfigMap" (λ cm. cm.meta) d req e stranger unread,
  ),
)

-- An UPDATE by anybody that removes the label `synced-by` from a secret is not denied, whatever it
-- changes besides, although the old object is a copy with both labels: the webhook looks at the new
-- object alone.
pub handle_secret-label_removal :
    (d : Decoder Secret) (req : Request) (old new : Secret) (source name : String)
    → req.operation ≡ "UPDATE"
    → d.decode_raw req.old_object ≡ ok old
    → IsMarked old.meta source name
    → d.decode req ≡ ok new
    → lookup synced_by_label new.labels ≡ none
    → is_denied (handle_secret d req) ≡ false
unfolding handle_secret examined judge judge_labels
handle_secret-label_removal d req old new source name op was marked now dropped =
    ground (
      arith,
      eq_iff req.operation "DELETE",
      eq_iff req.operation "UPDATE",
      eq_iff "UPDATE" "DELETE",
    )
