-- ===== src/Observability/Health.antt =====
-- packages/observability/src/health.ts. The checks of a readiness probe run at the same time: what
-- they come to is listed in the order in which they settle, which is left open. `now` is the text
-- that `nowIso` returns.
pub mod Laws
use ascended_core.Base.{
  ℕ, ◌+◌, String, str_append, Bool, true, false, Option, none, some, List, [], ◌∷◌, ltb, leb,
  if◌then◌else◌,
}
use ascended_core.Base.Dict
use ascended_core.Base.Dict.{Dict}
use ascended_core.Core.Value.{string, number, end, field}
use ascended_core.Core.Errors.{Thrown, core, blocked, js_error, other}
use ascended_core.Core.Result.{Result, ok, err}
use ascended_core.Core.Lifecycle.{HealthState, healthy, unhealthy, HealthReport, ProbeStatus}

state_rank : HealthState → ℕ
state_rank healthy = 0
state_rank HealthState.degraded = 1
state_rank unhealthy = 2

-- `error instanceof Error ? error.message : "health check failed"`
failure_text : Thrown → String
failure_text (core e) = e.message
failure_text (blocked e call) = e.message
failure_text (js_error message) = message
failure_text (other v) = "health check failed"

pub safe_check : String → Result HealthReport Thrown → HealthReport
unfolding failure_text
safe_check now (ok report) = report
safe_check now (err e) = record {
  state = unhealthy;
  reason = some (failure_text e);
  checked_at = now;
  details = none;
}

-- `if (stateRank(report.state) > stateRank(worst)) worst = report.state`
pub worse_of : HealthState → HealthState → HealthState
unfolding state_rank
worse_of worst state = if ltb (state_rank worst) (state_rank state) then state else worst

-- what a check of a component came to
abbrev pub Outcome : Type 0
Outcome = String × Result HealthReport Thrown

pub worst_from : String → HealthState → List Outcome → HealthState
unfolding worse_of safe_check
worst_from now worst [] = worst
worst_from now worst ((name, outcome) ∷ rest) =
    worst_from now (worse_of worst (safe_check now outcome).state) rest

reports_from : String → Dict HealthReport → List Outcome → Dict HealthReport
unfolding safe_check
reports_from now reports [] = reports
reports_from now reports ((name, outcome) ∷ rest) =
    reports_from now (Dict.set name (safe_check now outcome) reports) rest

-- `worst === HealthState.HEALTHY`
pub is_healthy : HealthState → Bool
is_healthy healthy = true
is_healthy _ = false

pub readiness : String → List Outcome → ProbeStatus
unfolding worst_from reports_from is_healthy
readiness now outcomes = record {
  live = true;
  ready = is_healthy (worst_from now healthy outcomes);
  components = some (reports_from now [] outcomes);
}

liveness : ProbeStatus
liveness = record { live = true; ready = false; components = none }

pub data ProviderState : Type 0 where
  unknown up degraded down : ProviderState

tracked_name : ProviderState → String
tracked_name unknown = "unknown"
tracked_name up = "up"
tracked_name degraded = "degraded"
tracked_name down = "down"

pub record ProviderHealthTracker : Type 0 where
  pub name : String
  pub failure_threshold : ℕ
  pub state : ProviderState
  pub consecutive_failures : ℕ

pub new_tracker : String → ℕ → ProviderHealthTracker
new_tracker name threshold = record {
  name = name;
  failure_threshold = threshold;
  state = unknown;
  consecutive_failures = 0;
}

pub record_success : ProviderHealthTracker → ProviderHealthTracker
record_success t = record t { state = up; consecutive_failures = 0 }

pub record_failure : ProviderHealthTracker → ProviderHealthTracker
record_failure t = record t {
  state = if leb t.failure_threshold (t.consecutive_failures + 1) then down else degraded;
  consecutive_failures = t.consecutive_failures + 1;
}

pub to_health_state : ProviderState → HealthState
to_health_state up = healthy
to_health_state degraded = HealthState.degraded
to_health_state down = unhealthy
to_health_state unknown = healthy

-- the reason of a provider that is neither up nor unknown
tracked_reason : String → ProviderState → Option String
unfolding tracked_name
tracked_reason name up = none
tracked_reason name unknown = none
tracked_reason name state =
    some (str_append "provider \"" (str_append name (str_append "\" " (tracked_name state))))

pub check_health : String → ProviderHealthTracker → HealthReport
unfolding to_health_state tracked_reason
check_health now t = record {
  state = to_health_state t.state;
  reason = tracked_reason t.name t.state;
  checked_at = now;
  details = some (
      field "provider" (string t.name) (
        field "state" (string (tracked_name t.state))
          (field "consecutiveFailures" (number t.consecutive_failures) end)));
}
