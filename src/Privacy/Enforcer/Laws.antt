-- ===== src/Privacy/Enforcer/Laws.antt =====
-- When a provider call is blocked, and what the error of a blocked call says.
use ascended_core.Base.{
  String, ◌≡◌, ◌≢◌, ◌⊎◌, ◌↔◌, refl, ap, inl, inr, true, false, Option, none, some, Option-cases,
  arith, includes, List, eq_iff, str_append, if◌then◌else◌,
}
use ascended_core.Core.Value.{string, object, Fields, end, field}
use ascended_core.Core.Errors.{Thrown, blocked, privacy_blocked}
use ascended_core.Core.Result.{ok, err}
use ascended_core.Privacy.Modes.{
  PrivacyMode, cloud, private_local, human, is_human, platform_name, mode_name,
}
use ascended_core.Privacy.Context.{RequestContext}
use ascended_core.Privacy.Policy.{PrivacyPolicy, cloud_families, default_policy_for_mode}
use ascended_core.Privacy.Telemetry.{sanitize_fields, is_forbidden}
use ascended_core.Privacy.Enforcer.{
  privacy_blocked_error, user_message, blocked_call, create_block, validate_provider_call,
}

-- the message of a policy, else the one of its mode
abbrev pub told : Option String → PrivacyMode → String → String
told (some message) mode family = message
told none human family = "Human mode is active. Automated provider families are not available."
told none _ family =
    str_append "The \""
      (str_append family "\" provider family is not available under the current privacy mode.")

user_message_lem :
    (policy : PrivacyPolicy) (family : String)
    → user_message policy family ≡ told policy.block_message policy.mode family
unfolding user_message is_human
user_message_lem policy family = elim (Option-cases policy.block_message) [
  | inr (message, given) ↦ rw given refl
  | inl default ↦ rw default (by_mode policy.mode)
]
  where
    by_mode :
        (mode : PrivacyMode)
        → (if is_human mode
            then "Human mode is active. Automated provider families are not available."
            else str_append "The \"" (
                str_append family
                  "\" provider family is not available under the current privacy mode."))
          ≡ told none mode family
    by_mode human = refl
    by_mode cloud = refl
    by_mode private_local = refl

module _ (policy : PrivacyPolicy) (now provider family : String) (context : RequestContext) where
  -- A call passes exactly when its family is not among those that the policy lists as blocked, or when
  -- its name is allow-listed and the mode is not Human. So a family that the policy does not list
  -- passes in Human mode too.
  pub validate-eq-ok_iff : (validate_provider_call policy now provider family context ≡ ok tt) ↔ (
      (includes family policy.blocked_families ≡ false)
      ⊎ ((is_human policy.mode ≡ false)
          × (includes provider policy.allowed_cloud_providers ≡ true)))
  unfolding validate_provider_call
  validate-eq-ok_iff = ground arith

  -- the sanitiser drops nothing of the telemetry
  sanitize-blocked_call :
      sanitize_fields (blocked_call policy now provider family context)
      ≡ blocked_call policy now provider family context
  unfolding sanitize_fields is_forbidden blocked_call
  sanitize-blocked_call = refl

  -- the telemetry of a blocked call with that message
  abbrev block_telemetry : String → Fields
  block_telemetry text = field "timestamp" (string now) (
      field "requestId" (string context.request_id) (
        field "eventType" (string "blocked") (
          field "provider" (string provider) (
            field "attemptedProvider" (string provider) (
              field "attemptedFamily" (string family) (
                field "reason" (string "privacy_blocked") (
                  field "userMessage" (string text) (
                    field "metadata"
                      (object (
                        field "platform" (string (platform_name context.platform)) (
                          field "feature" (string context.feature)
                            (field "privacyMode" (string (mode_name policy.mode)) end))))
                      end))))))))

  abbrev block_error_with : String → Thrown
  block_error_with text =
      blocked
        (record {
          code = privacy_blocked;
          message = text;
          status_code = some 403;
          context = some (
              field "attemptedProvider" (string provider) (
                field "attemptedFamily" (string family)
                  (field "reason" (string "privacy_blocked") end)));
        })
        (block_telemetry text)

  -- the error of a blocked call
  abbrev pub block_error : Thrown
  block_error = block_error_with (told policy.block_message policy.mode family)

  create_block_lem : create_block policy now provider family context ≡ block_error
  unfolding create_block privacy_blocked_error blocked_call sanitize_fields is_forbidden
  create_block_lem = ap block_error_with (user_message_lem policy family)

  -- A call whose family is blocked, in Human mode or from a provider that is not allow-listed, raises
  -- a `PrivacyBlockedError` with status 403. Its message is the one of the policy, or the one of its
  -- mode where the policy has none, and its telemetry holds, sanitised, the time, the request, the
  -- provider, the family, the message, the platform, the feature and the mode.
  pub validate_refused :
      includes family policy.blocked_families ≡ true
      → (policy.mode ≡ human) ⊎ (includes provider policy.allowed_cloud_providers ≡ false)
      → validate_provider_call policy now provider family context ≡ err block_error
  unfolding validate_provider_call is_human
  validate_refused listed (inl in_human) =
      ground (arith, listed, ap is_human in_human, create_block_lem)
  validate_refused listed (inr unlisted) = ground (arith, listed, unlisted, create_block_lem)

  pub validate-cases :
      (validate_provider_call policy now provider family context ≡ ok tt)
      ⊎ (validate_provider_call policy now provider family context ≡ err block_error)
  unfolding validate_provider_call
  validate-cases = ground (arith, create_block_lem)

-- Under the default policy of Human mode, with any allow-list put in, a call passes exactly when its
-- family is neither a cloud family nor the local one.
pub human_default_blocks :
    (names : List String) (now provider family : String) (context : RequestContext)
    → let policy = record (default_policy_for_mode human) { allowed_cloud_providers = names } in
      (validate_provider_call policy now provider family context ≡ ok tt)
      ↔ ((includes family cloud_families ≡ false) × (family ≢ "local"))
unfolding validate_provider_call default_policy_for_mode is_human
human_default_blocks names now provider family context = ground (arith, eq_iff "local" family)
