-- ===== src/Core/Errors.antt =====
-- packages/core/src/errors.ts. What a `throw` can raise is `Thrown`: the errors of the packages
-- that the router tells apart are constructors. The `cause` of an error is not modelled: no code
-- reads it.
use ascended_core.Base.{String, ℕ, Option, none}
use ascended_core.Core.Value.{Value, Metadata}

pub data ErrorCode : Type 0 where
  unknown validation not_found unauthorized forbidden conflict rate_limited : ErrorCode
  privacy_blocked provider_error provider_timeout unavailable unsupported : ErrorCode
  -- `code: ErrorCode | string`: any other string
  custom : String → ErrorCode

pub record CoreError : Type 0 where
  pub code : ErrorCode
  pub message : String
  pub status_code : Option ℕ
  pub context : Option Metadata

-- a `CoreError` with no status and no context
abbrev pub core_error : ErrorCode → String → CoreError
core_error code message = record {
  code = code;
  message = message;
  status_code = none;
  context = none;
}

-- A value that `throw` raises: a plain `CoreError`, a `PrivacyBlockedError` with its telemetry, an
-- `Error` of JavaScript with its message, or any other value.
pub data Thrown : Type 0 where
  core : CoreError → Thrown
  blocked : CoreError → Metadata → Thrown
  js_error : String → Thrown
  other : Value → Thrown

from : Thrown → ErrorCode → String → CoreError
from (core e) code message = e
from (blocked e call) code message = e
from (js_error text) code message = core_error code text
from (other v) code message = core_error code message
