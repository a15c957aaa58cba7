-- ===== src/Sdk/Client/Laws.antt =====
-- What the client lets through, and what becomes of the server's errors.
use ascended_core.Base.{
  ℕ, String, ◌≡◌, ◌≤◌, Bool, false, str_eq, arith, refl, sym, ap, subst, ◌∙◌, true, Option, none,
  some, Bool-cases, Option-cases, eq_iff, inl, inr, ◌⊎◌, if◌then◌else◌,
}
use ascended_core.Core.Value.{Value, undefined, value_at}
use ascended_core.Core.Errors.{
  ErrorCode, CoreError, unknown, validation, not_found, unauthorized, forbidden, conflict,
  rate_limited, privacy_blocked, provider_error, provider_timeout, unavailable, unsupported, custom,
  Thrown,
}
use ascended_core.Server.Http.{code_text, reported, error_response}
use ascended_core.Core.Result.{Result, ok, err}
use ascended_core.Sdk.Errors.{api_error, error_code_of}
use ascended_core.Sdk.Urls.{Text, build_url}
use ascended_core.Sdk.Client.{
  RequestInit, Response, Schema, Client, RequestOptions, Environment, is_ok_status, bearer_of,
  validated, missing_key, read_payload, error_of_body, checked_payload, send, after_fetch, request,
  to_api_error,
}

Result-cases : {A E : Type 0} (r : Result A E) → ((a : A) × (r ≡ ok a)) ⊎ ((e : E) × (r ≡ err e))
Result-cases (ok a) = inl (a, refl)
Result-cases (err e) = inr (e, refl)

abbrev IsErr : {A E : Type 0} → Result A E → Type 0
IsErr (ok a) = ⊥
IsErr (err e) = Unit

-- an answer, with its error forgotten
abbrev same_answer : Result Value CoreError → Result Value Value
same_answer (ok v) = ok v
same_answer (err e) = err undefined

-- the validation accepted a payload
abbrev pub Accepts : Schema → Value → Type 0
Accepts schema v = (payload : Value) × (schema payload ≡ ok v)

-- no key, or an empty one
abbrev pub HasNoKey : Option String → Type 0
HasNoKey none = Unit
HasNoKey (some key) = key ≡ ""

module _ {W : Type 0} (env : Environment W) where
  keyless_bearer :
      (client : Client) (options : RequestOptions)
      → options.requires_auth ≡ true
      → HasNoKey client.api_key
      → bearer_of env client options ≡ err (missing_key env options)
  unfolding bearer_of
  keyless_bearer client options needs keyless = elim (Option-cases client.api_key) [
    | inl none_given ↦ rw needs (rw none_given refl)
    | inr (key, given) ↦
        let is_empty : key ≡ "" = subst HasNoKey given keyless in
        rw needs (rw given (rw ((eq_iff key "").1 is_empty) refl))
  ]

  request_refused :
      (client : Client) (options : RequestOptions) (schema : Schema) (w : W) (e : CoreError)
      → bearer_of env client options ≡ err e
      → request env client options schema w ≡ (err e, w)
  unfolding request send
  request_refused client options schema w e refused =
      ap (λ r. send env client options schema r w) refused

  -- An operation that needs a key, on a client that has none or an empty one, fails as unauthorized,
  -- with status 401, whatever the operation and its schema, and nothing is sent.
  pub request_keyless :
      (client : Client) (options : RequestOptions) (schema : Schema) (w : W)
      → options.requires_auth ≡ true
      → HasNoKey client.api_key
      → (e : CoreError) × (request env client options schema w ≡ (err e, w))
        × (e.code ≡ unauthorized)
        × (e.status_code ≡ some 401)
  unfolding missing_key api_error
  request_keyless client options schema w needs keyless = (
    missing_key env options,
    request_refused client options schema w _ (keyless_bearer client options needs keyless),
    refl,
    refl,
  )

  checked-Accepts :
      (r : Result Value Value) (v : Value) (status : ℕ) (options : RequestOptions)
      → checked_payload env r status options ≡ ok v
      → r ≡ ok v
  unfolding checked_payload
  checked-Accepts (ok u) v status options h = ap same_answer h
  checked-Accepts (err issues) v status options h = absurd (subst IsErr h tt)

  read-Accepts :
      (schema : Schema) (json : Option Value) (v : Value) (status : ℕ) (options : RequestOptions)
      → read_payload env true schema json status options ≡ ok v
      → Accepts schema v
  unfolding read_payload validated
  read-Accepts schema none v status options h = absurd (subst IsErr h tt)
  read-Accepts schema (some payload) v status options h =
      (payload, checked-Accepts (schema payload) v status options h)

  after_fetch-Accepts :
      (schema : Schema) (options : RequestOptions) (r : Result Response Thrown) (v : Value)
      → after_fetch env true schema options r ≡ ok v
      → Accepts schema v
  unfolding after_fetch
  after_fetch-Accepts schema options (err e) v h = absurd (subst IsErr h tt)
  after_fetch-Accepts schema options (ok response) v h =
      elim (Bool-cases (is_ok_status response.status)) [
        | inl fine ↦ read-Accepts schema response.json v response.status options (
            sym (
              ap
                (λ b.
                  if b
                  then read_payload env true schema response.json response.status options
                  else err (to_api_error env response options))
                fine)
            ∙ h)
        | inr failed ↦ absurd (
            subst IsErr
              (sym (
                  ap
                    (λ b.
                      if b
                      then read_payload env true schema response.json response.status options
                      else err (to_api_error env response options))
                    failed)
                ∙ h)
              tt)
      ]

  send-Accepts :
      (client : Client) (options : RequestOptions) (schema : Schema)
      (bearer : Result (Option String) CoreError) (w : W) (v : Value)
      → client.validate_responses ≡ true
      → (send env client options schema bearer w).0 ≡ ok v
      → Accepts schema v
  unfolding send
  send-Accepts client options schema (err e) w v strict h = absurd (subst IsErr h tt)
  send-Accepts client options schema (ok bearer) w v strict h =
      let sent : Result Response Thrown × W =
        env.fetch (build_url env.params_text client.base_url options.path options.query)
          (record { method = options.method; bearer = bearer; body = options.body }) w in
      after_fetch-Accepts schema options sent.0 v
        (ap (λ b. after_fetch env b schema options sent.0) (sym strict) ∙ h)

  -- On a client that validates its responses, an operation only ever fulfils with a value that its
  -- schema accepted.
  pub request-Accepts :
      (client : Client) (options : RequestOptions) (schema : Schema) (w : W) (v : Value)
      → client.validate_responses ≡ true
      → (request env client options schema w).0 ≡ ok v
      → Accepts schema v
  unfolding request
  request-Accepts client options schema w v strict h =
      send-Accepts client options schema (bearer_of env client options) w v strict h

-- the codes of the enumeration
unfoldable pub IsListed : ErrorCode → Type 0
IsListed (custom s) = ⊥
IsListed _ = Unit

error_code-code_text : (code : ErrorCode) → IsListed code → error_code_of (code_text code) ≡ code
unfolding error_code_of code_text IsListed
error_code-code_text unknown h = refl
error_code-code_text validation h = refl
error_code-code_text not_found h = refl
error_code-code_text unauthorized h = refl
error_code-code_text forbidden h = refl
error_code-code_text conflict h = refl
error_code-code_text rate_limited h = refl
error_code-code_text privacy_blocked h = refl
error_code-code_text provider_error h = refl
error_code-code_text provider_timeout h = refl
error_code-code_text unavailable h = refl
error_code-code_text unsupported h = refl
error_code-code_text (custom s) h = absurd h

not_ok : (status : ℕ) → 400 ≤ status → is_ok_status status ≡ false
not_ok status h = ground (arith, h)

module _ {W : Type 0} (env : Environment W) where
  failed_response :
      (validate : Bool) (schema : Schema) (options : RequestOptions) (response : Response)
      → 400 ≤ response.status
      → after_fetch env validate schema options (ok response)
        ≡ err (to_api_error env response options)
  unfolding after_fetch
  failed_response validate schema options response high = rw (not_ok response.status high) refl

  keyed_bearer :
      (client : Client) (options : RequestOptions) (key : String)
      → client.api_key ≡ some key
      → str_eq key "" ≡ false
      → (bearer : Option String) × (bearer_of env client options ≡ ok bearer)
  unfolding bearer_of
  keyed_bearer client options key keyed filled = elim (Bool-cases options.requires_auth) [
    | inl needs ↦ (some key, rw (needs, keyed, filled) refl)
    | inr free ↦ (none, rw free refl)
  ]

  -- Let every fetch be answered with the reference server's response to an error, whose status is at
  -- least 400, and let the client have a key that is not empty. Whatever the operation and its schema,
  -- the call of the client fails: its error has the code of the server's error, if that is one of the
  -- enumeration, its message, and the status of the answer.
  pub request-error_response :
      (thrown : Thrown) (client : Client) (options : RequestOptions) (schema : Schema) (w : W)
      (key : String)
      → client.api_key ≡ some key
      → str_eq key "" ≡ false
      → 400 ≤ (error_response thrown).status
      → IsListed (reported thrown).code
      → ((url : Text) (init : RequestInit)
          → (env.fetch url init w).0
            ≡ ok (record {
              status = (error_response thrown).status;
              json = some (error_response thrown).body;
            }))
      → (seen : CoreError) × ((request env client options schema w).0 ≡ err seen)
        × (seen.code ≡ (reported thrown).code)
        × (seen.message ≡ (reported thrown).message)
        × (seen.status_code ≡ some (error_response thrown).status)
  unfolding request send to_api_error error_of_body api_error error_response value_at error_code_of
  request-error_response thrown client options schema w key keyed filled high listed answers =
      let response : Response = record {
        status = (error_response thrown).status;
        json = some (error_response thrown).body;
      } in
      let (bearer, given) = keyed_bearer client options key keyed filled in
      (
        to_api_error env response options,
        ap (λ b. (send env client options schema b w).0) given
            ∙ ap (after_fetch env client.validate_responses schema options) (answers _ _)
            ∙ failed_response client.validate_responses schema options response high,
        error_code-code_text (reported thrown).code listed,
        refl,
        refl,
      )
