-- ===== src/Privacy/Minimization.antt =====
-- packages/privacy/src/minimization.ts. The hex digest of SHA-256 is an argument.
pub mod Laws
use ascended_core.Base.{
  String, str_append, slice, Bool, Option, none, some, List, includes, not, str_eq, if◌then◌else◌,
}
use ascended_core.Core.Value.{Value, string, Fields, end, field, Metadata}

-- `redactKeys`
pub redact_keys : Fields → List String → String → Fields
redact_keys end keys marker = end
redact_keys (field key v fs) keys marker =
    field key (if includes key keys then string marker else v) (redact_keys fs keys marker)

-- `pickFields`
pub pick_fields : Fields → List String → Fields
pick_fields end allowlist = end
pick_fields (field key v fs) allowlist =
    if includes key allowlist
    then field key v (pick_fields fs allowlist)
    else pick_fields fs allowlist

-- `` `u_${digest.slice(0, 16)}` ``, for the digest of `` `${salt}:${userId}` ``
pub hash_user_id : (String → String) → String → String → String
hash_user_id sha256_hex user_id salt =
    str_append "u_" (slice (sha256_hex (str_append salt (str_append ":" user_id))) 0 16)

-- `RedactableTelemetry`: an optional user id, and all other keys
pub record RedactableTelemetry : Type 0 where
  pub user_id : Option String
  pub rest : Fields

pub record TaggedTelemetry : Type 0 where
  pub user_tag : Option String
  pub rest : Fields

-- `redactTelemetry`
pub redact_telemetry : (String → String) → RedactableTelemetry → String → TaggedTelemetry
redact_telemetry sha256_hex payload salt = record {
  user_tag = elim payload.user_id [
    | none ↦ none
    | some user_id ↦ some (hash_user_id sha256_hex user_id salt)
  ];
  rest = payload.rest;
}

pub record ConsentDecision : Type 0 where
  pub required : Bool
  pub granted : Option Bool
  pub basis : Option String

-- `isConsentRequired`: `jurisdiction.length > 0`
pub is_consent_required : String → String → ConsentDecision
is_consent_required feature jurisdiction = record {
  required = not (str_eq jurisdiction "");
  granted = none;
  basis = some "default-conservative";
}
