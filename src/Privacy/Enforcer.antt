-- ===== src/Privacy/Enforcer.antt =====
-- packages/privacy/src/enforcer.ts. The enforcer's state is its active policy; `now` is the
-- timestamp that `nowIso` returns.
pub mod Laws
use ascended_core.Base.{
  String, str_append, ℕ, Bool, true, false, Option, none, some, not, ◌&&◌, includes, if◌then◌else◌,
}
use ascended_core.Core.Value.{
  Value, string, object, Fields, end, field, value_at, text_at, Metadata,
}
use ascended_core.Core.Errors.{CoreError, privacy_blocked, Thrown, blocked}
use ascended_core.Core.Result.{Result, ok, err}
use ascended_core.Privacy.Modes.{is_human, mode_name, platform_name}
use ascended_core.Privacy.Context.{RequestContext}
use ascended_core.Privacy.Policy.{PrivacyPolicy}
use ascended_core.Privacy.Telemetry.{sanitize_fields}

-- `new PrivacyBlockedError(blockedCall)`
pub privacy_blocked_error : Fields → Thrown
unfolding value_at text_at
privacy_blocked_error call =
    blocked
      (record {
        code = privacy_blocked;
        message = text_at "userMessage" call;
        status_code = some 403;
        context = some (
            field "attemptedProvider" (value_at "attemptedProvider" call) (
              field "attemptedFamily" (value_at "attemptedFamily" call)
                (field "reason" (value_at "reason" call) end)));
      })
      call

-- `PrivacyBlockedError.isPrivacyBlockedError`
unfoldable pub is_privacy_blocked_error : Thrown → Bool
is_privacy_blocked_error (blocked e call) = true
is_privacy_blocked_error _ = false

-- the message of the policy, or the one of its mode
pub user_message : PrivacyPolicy → String → String
unfolding is_human
user_message policy family = elim policy.block_message [
  | some message ↦ message
  | none ↦
      if is_human policy.mode
      then "Human mode is active. Automated provider families are not available."
      else str_append "The \""
          (str_append family "\" provider family is not available under the current privacy mode.")
]

-- the telemetry of a blocked call, before it is sanitised
pub blocked_call : PrivacyPolicy → String → String → String → RequestContext → Fields
blocked_call policy now provider family context = field "timestamp" (string now) (
    field "requestId" (string context.request_id) (
      field "eventType" (string "blocked") (
        field "provider" (string provider) (
          field "attemptedProvider" (string provider) (
            field "attemptedFamily" (string family) (
              field "reason" (string "privacy_blocked") (
                field "userMessage" (string (user_message policy family)) (
                  field "metadata"
                    (object (
                      field "platform" (string (platform_name context.platform)) (
                        field "feature" (string context.feature)
                          (field "privacyMode" (string (mode_name policy.mode)) end))))
                    end))))))))

-- `#createBlock`
pub create_block : PrivacyPolicy → String → String → String → RequestContext → Thrown
create_block policy now provider family context =
    privacy_blocked_error (sanitize_fields (blocked_call policy now provider family context))

-- the allow-list counts in every mode but Human
is_allow_listed : PrivacyPolicy → String → Bool
unfolding is_human
is_allow_listed policy provider =
    not (is_human policy.mode) && includes provider policy.allowed_cloud_providers

pub validate_provider_call :
    PrivacyPolicy → String → String → String → RequestContext → Result (Unit {0}) Thrown
unfolding is_allow_listed
validate_provider_call policy now provider family context =
    if is_allow_listed policy provider
    then ok tt
    else if includes family policy.blocked_families
    then err (create_block policy now provider family context)
    else ok tt

update_policy : PrivacyPolicy → PrivacyPolicy → PrivacyPolicy
update_policy current policy = policy
