-- ===== src/Server/Http.antt =====
-- examples/minimal-server/src/server.ts: authentication, the handling of a request, and the answer
-- to an error; store.ts: `resolveToken`. A request is what Node's parser makes of it: `trim` and
-- `JSON.parse` are arguments, and the body has been read. A header and a token are code points.
pub mod Laws
use ascended_core.Base.{
  ℕ, String, str_append, Bool, true, false, ◌&&◌, Option, none, some, List, [], ◌∷◌, ◌++◌, str_eq,
  if◌then◌else◌,
}
use ascended_core.Core.Value.{Value, undefined, string, Fields, end, field, object}
use ascended_core.Core.Errors.{
  ErrorCode, CoreError, core_error, unknown, validation, not_found, unauthorized, forbidden,
  conflict, rate_limited, privacy_blocked, provider_error, provider_timeout, unavailable,
  unsupported, custom, Thrown, core, blocked, js_error, other,
}
use ascended_core.Core.Result.{Result, ok, err}
use ascended_core.Core.Ids.{is_entity_id}
use ascended_core.Server.World.{World, Task, Surroundings, ◌>>=◌, return, throw}
use ascended_core.Server.Paging.{RequestContext, RouteResult, answer}
use ascended_core.Server.Routes.{Text, codes, same_text, behind, route}

abbrev pub demo_token_prefix : Text
demo_token_prefix = codes "test-"

-- `resolveToken`
unfoldable pub resolve_token : Text → Option Text
resolve_token token = elim (behind demo_token_prefix token) [
  | none ↦ none
  | some account_id ↦ if is_entity_id account_id then some account_id else none
]

-- `demoTokenFor`
unfoldable pub demo_token_for : Text → Text
demo_token_for account_id = demo_token_prefix ++ account_id

-- what Node's parser and the URL give of a request; `body` is what `readBody` finds: no text, a text
-- that parses, or one that does not
pub data RawBody : Type 0 where
  no_body : RawBody
  parsed : Value → RawBody
  unparsable : RawBody

pub record Request : Type 0 where
  -- `(req.method ?? "GET").toUpperCase()`
  pub method : String
  pub path : Text
  pub limit_param : Option String
  pub cursor_param : Option String
  pub authorization : Option Text
  pub body : RawBody

pub record Response : Type 0 where
  pub status : ℕ
  pub body : Value

-- behind the header's scheme
abbrev pub account_of : Option Text → Result Text CoreError
account_of none = err (core_error unauthorized "invalid bearer token")
account_of (some account_id) = ok account_id

abbrev pub token_of : (Text → Text) → Option Text → Result Text CoreError
token_of trim none = err (core_error unauthorized "missing bearer token")
token_of trim (some rest) = account_of (resolve_token (trim rest))

unfoldable pub authenticate : (Text → Text) → Option Text → Result Text CoreError
unfolding resolve_token
authenticate trim none = err (core_error unauthorized "missing bearer token")
authenticate trim (some header) = token_of trim (behind (codes "Bearer ") header)

unfoldable pub read_body : RawBody → Result Value CoreError
read_body no_body = ok undefined
read_body (parsed v) = ok v
read_body unparsable = err (core_error validation "request body is not valid JSON")

-- the answer by the code, for an error without a status
unfoldable pub status_for_code : ErrorCode → ℕ
status_for_code validation = 400
status_for_code unauthorized = 401
status_for_code forbidden = 403
status_for_code privacy_blocked = 403
status_for_code not_found = 404
status_for_code unsupported = 405
status_for_code conflict = 409
status_for_code rate_limited = 429
status_for_code _ = 500

unfoldable pub status_for_error : CoreError → ℕ
unfolding status_for_code
status_for_error e = elim e.status_code [ none ↦ status_for_code e.code | some status ↦ status ]

-- `String(coreError.code)`: the values of the enumeration
unfoldable pub code_text : ErrorCode → String
code_text unknown = "UNKNOWN"
code_text validation = "VALIDATION"
code_text not_found = "NOT_FOUND"
code_text unauthorized = "UNAUTHORIZED"
code_text forbidden = "FORBIDDEN"
code_text conflict = "CONFLICT"
code_text rate_limited = "RATE_LIMITED"
code_text privacy_blocked = "PRIVACY_BLOCKED"
code_text provider_error = "PROVIDER_ERROR"
code_text provider_timeout = "PROVIDER_TIMEOUT"
code_text unavailable = "UNAVAILABLE"
code_text unsupported = "UNSUPPORTED"
code_text (custom s) = s

-- the `CoreError` that `writeError` reports
unfoldable pub reported : Thrown → CoreError
reported (core e) = e
reported (blocked e call) = e
reported (js_error message) = core_error unknown message
reported (other v) = core_error unknown "internal error"

-- `writeError`, before any header is sent
unfoldable pub error_response : Thrown → Response
unfolding status_for_error code_text reported
error_response thrown =
    let e = reported thrown in
    record {
      status = status_for_error e;
      body = object (
          field "error" (string (code_text e.code))
            (field "message" (string e.message) (field "code" (string (code_text e.code)) end)));
    }

abbrev pub response_of : Result RouteResult Thrown → Response
response_of (ok result) = record { status = result.status; body = result.body }
response_of (err e) = error_response e

-- the public route
abbrev pub is_health_check : Request → Bool
is_health_check request = str_eq request.method "GET" && same_text request.path (codes "/healthz")

module _ {W : Type 0} (env : Surroundings W) (shown : Text → String) (trim : Text → Text) where
  -- the request of an account whose body is read
  pub run_route : Request → Text → Value → Task W RouteResult
  run_route request account_id body = route env shown request.path (record {
    method = request.method;
    limit_param = request.limit_param;
    cursor_param = request.cursor_param;
    account_id = shown account_id;
    body = body;
  })

  -- behind the authentication
  pub handle_as : Request → Text → Task W RouteResult
  unfolding run_route
  handle_as request account_id w = elim (read_body request.body) [
    | err e ↦ (err (core e), w)
    | ok body ↦ run_route request account_id body w
  ]

  -- behind the health check
  pub handle_private : Request → Task W RouteResult
  unfolding handle_as
  handle_private request w = elim (authenticate trim request.authorization) [
    | err e ↦ (err (core e), w)
    | ok account_id ↦ handle_as request account_id w
  ]

  -- `handle`, the request counted
  pub handle : String → Request → Task W RouteResult
  unfolding handle_private
  handle version request w =
      let w' = env.count_request request.method request.path w in
      if is_health_check request
      then (
        ok (answer 200 (field "status" (string "ok") (field "version" (string version) end))),
        w',
      )
      else handle_private request w'

  -- what the server answers, and the world behind it
  pub serve : String → Request → World W → Response × World W
  unfolding handle
  serve version request w = let (r, w') = handle version request w in (response_of r, w')
