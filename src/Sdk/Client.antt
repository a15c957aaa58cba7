-- ===== src/Sdk/Client.antt =====
-- packages/sdk/src/client.ts. The `fetch` that is given acts on a world; a response has its status
-- and, when its body parses, the JSON. What a schema of the contract accepts, and the issues it
-- raises otherwise, `encodeURIComponent`, `URLSearchParams` and the decimal text of a number are
-- arguments.
pub mod Operations
pub mod Laws
use ascended_core.Base.{
  ℕ, String, str_append, Bool, true, false, ◌&&◌, Option, none, some, List, [], ◌∷◌, str_eq, leb,
  ltb, if◌then◌else◌,
}
use ascended_core.Core.Value.{
  Value, undefined, string, object, instance_of, Fields, end, field, value_at,
}
use ascended_core.Core.Errors.{
  ErrorCode, CoreError, validation, unauthorized, provider_error, unavailable, Thrown,
}
use ascended_core.Core.Result.{Result, ok, err}
use ascended_core.Sdk.Errors.{api_error, error_code_of}
use ascended_core.Sdk.Urls.{Text, codes, strip_trailing_slashes, build_url}

-- `RequestInit`: the method, the bearer token if there is one, and the JSON body if there is one
pub record RequestInit : Type 0 where
  pub method : String
  pub bearer : Option String
  pub body : Option Value

pub record Response : Type 0 where
  pub status : ℕ
  -- `none`: `response.json()` rejects
  pub json : Option Value

-- `response.ok`
abbrev pub is_ok_status : ℕ → Bool
is_ok_status status = leb 200 status && ltb status 300

-- `safeParse`
abbrev pub Schema : Type 0
Schema = Value → Result Value Value

pub record Client : Type 0 where
  pub base_url : Text
  pub api_key : Option String
  pub validate_responses : Bool

pub record ClientOptions : Type 0 where
  pub base_url : Text
  pub api_key : Option String
  pub validate_responses : Option Bool

-- the constructor, where there is a `fetch`
unfoldable pub new_client : ClientOptions → Client
new_client options = record {
  base_url = strip_trailing_slashes options.base_url;
  api_key = options.api_key;
  validate_responses = elim options.validate_responses [ none ↦ true | some b ↦ b ];
}

pub record RequestOptions : Type 0 where
  pub method : String
  pub path : Text
  pub requires_auth : Bool
  pub query : Option (List (String × Option String))
  pub body : Option Value

pub record Environment (W : Type 0) : Type 0 where
  pub fetch : Text → RequestInit → W → Result Response Thrown × W
  pub params_text : List (String × String) → Text
  pub shown : Text → String
  pub decimal : ℕ → String

-- `typeof body.key === "string"`
abbrev pub text_field : String → Value → Option String
text_field key (object fields) = elim (value_at key fields) [ string s ↦ some s | _ ↦ none ]
text_field key (instance_of fields) = elim (value_at key fields) [ string s ↦ some s | _ ↦ none ]
text_field key _ = none

abbrev first_text : Option String → Option String → String → String
first_text (some s) other fallback = s
first_text none (some s) fallback = s
first_text none none fallback = fallback

module _ {W : Type 0} (env : Environment W) where
  -- the operation in the messages: its method and path
  operation_text : RequestOptions → String
  operation_text options = str_append options.method (str_append " " (env.shown options.path))

  request_context : RequestOptions → Fields
  request_context options =
      field "path" (string (env.shown options.path)) (field "method" (string options.method) end)

  abbrev code_field : Value → Option ErrorCode
  code_field body = elim (text_field "code" body) [ none ↦ none | some s ↦ some (error_code_of s) ]

  -- the fallback is the message by the status
  pub error_of_body : Option Value → String → ℕ → RequestOptions → CoreError
  unfolding request_context
  error_of_body none fallback status options =
      api_error none fallback (some status) (some (request_context options))
  error_of_body (some body) fallback status options =
      api_error (code_field body)
        (first_text (text_field "message" body) (text_field "error" body) fallback) (some status)
        (some (request_context options))

  pub to_api_error : Response → RequestOptions → CoreError
  unfolding operation_text error_of_body
  to_api_error response options =
      error_of_body response.json
        (str_append "Request " (
          str_append (operation_text options)
            (str_append " failed with status " (str_append (env.decimal response.status) "."))))
        response.status options

  pub missing_key : RequestOptions → CoreError
  unfolding operation_text
  missing_key options =
      api_error (some unauthorized)
        (str_append "Operation "
          (str_append (operation_text options) " requires an apiKey but none was provided."))
        (some 401) none

  -- the header, or the refusal before anything is sent
  unfoldable pub bearer_of : Client → RequestOptions → Result (Option String) CoreError
  unfolding missing_key
  bearer_of client options =
      if options.requires_auth
      then elim client.api_key [
        | none ↦ err (missing_key options)
        | some key ↦ if str_eq key "" then err (missing_key options) else ok (some key)
      ]
      else ok none

  -- behind the schema's answer
  unfoldable pub checked_payload : Result Value Value → ℕ → RequestOptions → Result Value CoreError
  unfolding operation_text
  checked_payload (ok v) status options = ok v
  checked_payload (err issues) status options = err (
      api_error (some validation)
        (str_append "Response validation failed for " (str_append (operation_text options) "."))
        (some status) (some (field "issues" issues end)))

  -- the validation of a payload
  unfoldable pub validated : Bool → Schema → Value → ℕ → RequestOptions → Result Value CoreError
  unfolding checked_payload
  validated false schema payload status options = ok payload
  validated true schema payload status options = checked_payload (schema payload) status options

  -- the payload of a response that is ok
  unfoldable pub read_payload :
      Bool → Schema → Option Value → ℕ → RequestOptions → Result Value CoreError
  unfolding validated operation_text
  read_payload validate schema none status options = err (
      api_error (some provider_error)
        (str_append "Failed to parse JSON response for " (str_append (operation_text options) "."))
        (some status) none)
  read_payload validate schema (some payload) status options =
      validated validate schema payload status options

  -- behind the call of `fetch`
  unfoldable pub after_fetch :
      Bool → Schema → RequestOptions → Result Response Thrown → Result Value CoreError
  unfolding read_payload to_api_error
  after_fetch validate schema options (err e) = err (
      api_error (some unavailable)
        (str_append "Network request failed for " (str_append (operation_text options) ".")) none
        (some (request_context options)))
  after_fetch validate schema options (ok response) =
      if is_ok_status response.status
      then read_payload validate schema response.json response.status options
      else err (to_api_error response options)

  -- behind the headers
  unfoldable pub send :
      Client
      → RequestOptions
      → Schema
      → Result (Option String) CoreError
      → W
      → Result Value CoreError × W
  unfolding after_fetch
  send client options schema (err e) w = (err e, w)
  send client options schema (ok bearer) w =
      let (r, w') =
        env.fetch (build_url env.params_text client.base_url options.path options.query)
          (record { method = options.method; bearer = bearer; body = options.body }) w in
      (after_fetch client.validate_responses schema options r, w')

  unfoldable pub request : Client → RequestOptions → Schema → W → Result Value CoreError × W
  unfolding bearer_of send
  request client options schema w = send client options schema (bearer_of client options) w
