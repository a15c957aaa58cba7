-- ===== src/Sdk/Errors.antt =====
-- packages/sdk/src/errors.ts. An `ApiError` is a core error.
pub mod Laws
use ascended_core.Base.{ℕ, String, Option, none, some, ◌==◌, str_eq, if◌then◌else◌}
use ascended_core.Core.Value.{Fields}
use ascended_core.Core.Errors.{
  ErrorCode, CoreError, validation, not_found, unauthorized, forbidden, conflict, rate_limited,
  provider_error, unsupported, unknown, privacy_blocked, provider_timeout, unavailable, custom,
}

unfoldable pub status_code_to_error_code : ℕ → ErrorCode
status_code_to_error_code status =
    if status == 400
    then validation
    else if status == 401
    then unauthorized
    else if status == 403
    then forbidden
    else if status == 404
    then not_found
    else if status == 405
    then unsupported
    else if status == 409
    then conflict
    else if status == 429
    then rate_limited
    else provider_error

-- the member of the enumeration that is this text, or any other text
unfoldable pub error_code_of : String → ErrorCode
error_code_of s =
    if str_eq s "UNKNOWN"
    then unknown
    else if str_eq s "VALIDATION"
    then validation
    else if str_eq s "NOT_FOUND"
    then not_found
    else if str_eq s "UNAUTHORIZED"
    then unauthorized
    else if str_eq s "FORBIDDEN"
    then forbidden
    else if str_eq s "CONFLICT"
    then conflict
    else if str_eq s "RATE_LIMITED"
    then rate_limited
    else if str_eq s "PRIVACY_BLOCKED"
    then privacy_blocked
    else if str_eq s "PROVIDER_ERROR"
    then provider_error
    else if str_eq s "PROVIDER_TIMEOUT"
    then provider_timeout
    else if str_eq s "UNAVAILABLE"
    then unavailable
    else if str_eq s "UNSUPPORTED"
    then unsupported
    else custom s

-- `details.code ?? …`
abbrev pub code_or : Option ErrorCode → Option ℕ → ErrorCode
code_or (some code) status = code
code_or none (some status) = status_code_to_error_code status
code_or none none = provider_error

-- the constructor of `ApiError`
unfoldable pub api_error : Option ErrorCode → String → Option ℕ → Option Fields → CoreError
unfolding status_code_to_error_code
api_error code message status context = record {
  code = code_or code status;
  message = message;
  status_code = status;
  context = context;
}

unfoldable pub from_status : ℕ → String → Option Fields → CoreError
unfolding api_error
from_status status message context =
    api_error (some (status_code_to_error_code status)) message (some status) context
