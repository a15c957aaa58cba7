-- ===== src/Router/Attempt.antt =====
-- packages/ai-router/src/router.ts: the attempts at the candidates of an operation, in order.
-- Promises never mix: the loop awaits each one before it goes on. A route whose awaited promise
-- stays pending never settles, which is `none`.
pub mod Laws
pub mod Log
use ascended_core.Base.{
  ℕ, zero, suc, String, str_append, Bool, true, false, Option, none, some, List, [], ◌∷◌, ◌++◌,
  length, last, leb, if◌then◌else◌,
}
use ascended_core.Core.Value.{string, number, end, field}
use ascended_core.Core.Errors.{CoreError, unavailable, Thrown}
use ascended_core.Core.Result.{Result, ok, err}
use ascended_core.Privacy.Enforcer.{is_privacy_blocked_error}
use ascended_core.Router.Providers.{
  Promised, fulfils, rejects, pending, Call, CapabilityDescriptor, ProviderResponse,
}

pub data RouteReason : Type 0 where
  privacy_blocked capability_unavailable provider_unavailable provider_timeout : RouteReason
  provider_error : RouteReason

pub reason_name : RouteReason → String
reason_name privacy_blocked = "privacy_blocked"
reason_name capability_unavailable = "capability_unavailable"
reason_name provider_unavailable = "provider_unavailable"
reason_name provider_timeout = "provider_timeout"
reason_name provider_error = "provider_error"

pub record RouteAttempt : Type 0 where
  pub provider : String
  pub family : String
  pub success : Bool
  pub reason : Option String

pub record RouteResult (T : Type 0) : Type 0 where
  pub response : ProviderResponse T
  pub attempts : List RouteAttempt
  pub selected_provider : String

pub record RouteExhaustedError : Type 0 where
  pub error : CoreError
  pub attempts : List RouteAttempt

-- `attempts.at(-1)?.reason ?? RouteReason.PROVIDER_UNAVAILABLE`
pub last_reason : List RouteAttempt → String
unfolding reason_name
last_reason attempts = elim (last attempts) [
  | none ↦ reason_name provider_unavailable
  | some a ↦ elim a.reason [ none ↦ reason_name provider_unavailable | some r ↦ r ]
]

-- `new RouteExhaustedError(attempts)`
unfoldable pub route_exhausted : List RouteAttempt → RouteExhaustedError
route_exhausted attempts = record {
  error = record {
    code = unavailable;
    message = str_append "All providers failed. Last reason: " (last_reason attempts);
    status_code = none;
    context = some (
        field "attempts" (number (length attempts))
          (field "lastReason" (string (last_reason attempts)) end));
  };
  attempts = attempts;
}

-- What `await withTimeout(promise, timeoutMs)` comes to. A promise that settles as the timer goes
-- off has been registered first, and wins.
pub data Awaited (A : Type 0) : Type 0 where
  resolved : A → Awaited A
  threw : Thrown → Awaited A
  timed_out : Awaited A
  never : Awaited A

await_promise : {A : Type 0} → Promised A → Awaited A
await_promise (fulfils after a) = resolved a
await_promise (rejects after e) = threw e
await_promise pending = never

race : {A : Type 0} → Promised A → ℕ → Awaited A
race (fulfils after a) timeout = if leb after timeout then resolved a else timed_out
race (rejects after e) timeout = if leb after timeout then threw e else timed_out
race pending timeout = timed_out

-- `if (timeoutMs <= 0) return promise`
pub with_timeout : {A : Type 0} → Promised A → ℕ → Awaited A
unfolding await_promise race
with_timeout promise zero = await_promise promise
with_timeout promise (suc t) = race promise (suc t)

pub record Candidate (W T : Type 0) : Type 0 where
  pub name : String
  pub family : String
  pub check : Call W CapabilityDescriptor
  pub execute : Call W (ProviderResponse T)

abbrev default_timeout_ms : ℕ
default_timeout_ms = 12000

-- `options.timeoutMs ?? 12_000`
unfoldable pub timeout_of : Option ℕ → ℕ
timeout_of none = default_timeout_ms
timeout_of (some t) = t

abbrev pub Routed : Type 0 → Type 0 → Type 0
Routed W T = Option (Result (RouteResult T) RouteExhaustedError) × W

-- the reason of a check that throws
unfoldable pub check_reason : Thrown → String
unfolding is_privacy_blocked_error reason_name
check_reason e =
    if is_privacy_blocked_error e
    then reason_name privacy_blocked
    else reason_name capability_unavailable

-- the reason of a capability that is not available
pub unavailable_reason : CapabilityDescriptor → String
unfolding reason_name
unavailable_reason capability = elim capability.unavailable_reason [
  | none ↦ reason_name capability_unavailable
  | some why ↦ why
]

module _ {W T : Type 0} where
  -- the attempts that are pushed to the log
  abbrev pub failed : Candidate W T → String → RouteAttempt
  failed c why = record { provider = c.name; family = c.family; success = false; reason = some why }

  abbrev pub succeeded : Candidate W T → RouteAttempt
  succeeded c = record { provider = c.name; family = c.family; success = true; reason = none }

  -- behind the dispatch: return, or go on with the next candidate
  abbrev pub after_execute :
      Candidate W T
      → List RouteAttempt
      → (List RouteAttempt → W → Routed W T)
      → Awaited (ProviderResponse T)
      → W
      → Routed W T
  after_execute c attempts next (resolved response) w = (
    some (
        ok (record {
          response = response;
          attempts = attempts ++ succeeded c ∷ [];
          selected_provider = c.name;
        })),
    w,
  )
  after_execute c attempts next (threw e) w =
      next (attempts ++ failed c (reason_name provider_error) ∷ []) w
  after_execute c attempts next timed_out w =
      next (attempts ++ failed c (reason_name provider_timeout) ∷ []) w
  after_execute c attempts next never w = (none, w)

  -- the dispatch itself
  abbrev pub dispatch :
      ℕ → Candidate W T → List RouteAttempt → (List RouteAttempt → W → Routed W T) → W → Routed W T
  dispatch timeout c attempts next w =
      let (promise, w') = c.execute w in
      after_execute c attempts next (with_timeout promise timeout) w'

  -- behind the check
  abbrev pub after_check :
      ℕ
      → Candidate W T
      → List RouteAttempt
      → (List RouteAttempt → W → Routed W T)
      → Promised CapabilityDescriptor
      → W
      → Routed W T
  after_check timeout c attempts next (fulfils after capability) w =
      if capability.available
      then dispatch timeout c attempts next w
      else next (attempts ++ failed c (unavailable_reason capability) ∷ []) w
  after_check timeout c attempts next (rejects after e) w =
      next (attempts ++ failed c (check_reason e) ∷ []) w
  after_check timeout c attempts next pending w = (none, w)

  -- the loop, with the attempts made so far
  unfoldable pub attempt_from : ℕ → List (Candidate W T) → List RouteAttempt → W → Routed W T
  attempt_from timeout [] attempts w = (some (err (route_exhausted attempts)), w)
  attempt_from timeout (c ∷ cs) attempts w =
      let (promise, w') = c.check w in
      after_check timeout c attempts (attempt_from timeout cs) promise w'

  unfoldable pub attempt_candidates : List (Candidate W T) → Option ℕ → W → Routed W T
  unfolding attempt_from timeout_of
  attempt_candidates candidates timeout_ms w = attempt_from (timeout_of timeout_ms) candidates [] w
