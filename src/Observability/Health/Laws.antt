-- ===== src/Observability/Health/Laws.antt =====
-- What the reports of components come to, and what a tracker reports of a history.
use ascended_core.Base.{
  ℕ, ◌+◌, String, ◌≡◌, ◌≢◌, ◌↔◌, ◌∙◌, refl, ap, Bool-cases, inl, inr, Bool, true, false, List, [],
  ◌∷◌, All, arith, leb, if◌then◌else◌,
}
use ascended_core.Core.Lifecycle.{HealthState, healthy, unhealthy, HealthReport}
use ascended_core.Core.Errors.{Thrown}
use ascended_core.Core.Result.{Result, ok, err}
use ascended_core.Observability.Health.{
  Outcome, safe_check, worse_of, worst_from, readiness, is_healthy, ProviderState, unknown, up,
  degraded, down, ProviderHealthTracker, new_tracker, record_success, record_failure,
  to_health_state, check_health,
}

-- The check fulfils with a report whose state is healthy.
abbrev pub ReportsHealthy : Outcome → Type 0
ReportsHealthy o = (report : HealthReport) × (o.1 ≡ ok report) × (report.state ≡ healthy)

unhealthy-ne-healthy : unhealthy ≢ healthy
unhealthy-ne-healthy h = cc

safe_check-healthy :
    (now : String) (name : String) (r : Result HealthReport Thrown)
    → ((safe_check now r).state ≡ healthy) ↔ ReportsHealthy (name, r)
unfolding safe_check
safe_check-healthy now name (ok report) =
    ((λ h. (report, refl, h)), (λ (_, same, h). ap (λ r. (safe_check now r).state) same ∙ h))
safe_check-healthy now name (err e) = (
  (λ h. absurd (unhealthy-ne-healthy h)),
  (λ (_, same, h). ap (λ r. (safe_check now r).state) same ∙ h),
)

worse_of-healthy :
    (worst state : HealthState)
    → (worse_of worst state ≡ healthy) ↔ ((worst ≡ healthy) × (state ≡ healthy))
unfolding worse_of
worse_of-healthy worst state = ground arith

worst_from-healthy :
    (now : String) (worst : HealthState) (outcomes : List Outcome)
    → (worst_from now worst outcomes ≡ healthy) ↔ ((worst ≡ healthy) × All ReportsHealthy outcomes)
unfolding worst_from
worst_from-healthy now worst [] = ((λ e. (e, tt)), (λ h. h.0))
worst_from-healthy now worst ((name, outcome) ∷ rest) =
    let (down_, up_) =
      worst_from-healthy now (worse_of worst (safe_check now outcome).state) rest in
    let (split, join) = worse_of-healthy worst (safe_check now outcome).state in
    let (reports, seen) = safe_check-healthy now name outcome in
    (
      (λ e. ((split (down_ e).0).0, (reports (split (down_ e).0).1, (down_ e).1))),
      (λ h. up_ (join (h.0, seen h.1.0), h.1.1)),
    )

is_healthy-true : (state : HealthState) → is_healthy state ≡ true → state ≡ healthy
unfolding is_healthy
is_healthy-true state h = ground arith

-- A probe is ready exactly when the check of every component fulfils with a report that is healthy:
-- one that is degraded, unhealthy or throws makes it unready, in whatever order the checks settle.
pub readiness_lem :
    (now : String) (outcomes : List Outcome)
    → ((readiness now outcomes).ready ≡ true) ↔ All ReportsHealthy outcomes
unfolding readiness is_healthy
readiness_lem now outcomes =
    let (down_, up_) = worst_from-healthy now healthy outcomes in
    (
      (λ e. (down_ (is_healthy-true (worst_from now healthy outcomes) e)).1),
      (λ h. rw (up_ (refl, h)) refl),
    )

-- the tracker behind a history of successes and failures, the last one first
abbrev pub tracker_after : String → ℕ → List Bool → ProviderHealthTracker
tracker_after name threshold [] = new_tracker name threshold
tracker_after name threshold (true ∷ history) =
    record_success (tracker_after name threshold history)
tracker_after name threshold (false ∷ history) =
    record_failure (tracker_after name threshold history)

-- the failures since the last success
abbrev pub recent_failures : List Bool → ℕ
recent_failures [] = 0
recent_failures (true ∷ history) = 0
recent_failures (false ∷ history) = recent_failures history + 1

abbrev expected_state : ℕ → List Bool → ProviderState
expected_state threshold [] = unknown
expected_state threshold (true ∷ history) = up
expected_state threshold (false ∷ history) =
    if leb threshold (recent_failures (false ∷ history)) then down else degraded

-- what the report says of a history
abbrev pub expected_report : ℕ → List Bool → HealthState
expected_report threshold [] = healthy
expected_report threshold (true ∷ history) = healthy
expected_report threshold (false ∷ history) =
    if leb threshold (recent_failures history + 1) then unhealthy else HealthState.degraded

reported_state :
    (threshold : ℕ) (history : List Bool)
    → to_health_state (expected_state threshold history) ≡ expected_report threshold history
unfolding to_health_state
reported_state threshold [] = refl
reported_state threshold (true ∷ history) = refl
reported_state threshold (false ∷ history) =
    elim (Bool-cases (leb threshold (recent_failures history + 1))) [
      | inl reached ↦ rw reached refl
      | inr fewer ↦ rw fewer refl
    ]

kept_threshold :
    (name : String) (threshold : ℕ) (history : List Bool)
    → (tracker_after name threshold history).failure_threshold ≡ threshold
unfolding new_tracker record_success record_failure
kept_threshold name threshold [] = refl
kept_threshold name threshold (true ∷ history) = kept_threshold name threshold history
kept_threshold name threshold (false ∷ history) = kept_threshold name threshold history

counted :
    (name : String) (threshold : ℕ) (history : List Bool)
    → (tracker_after name threshold history).consecutive_failures ≡ recent_failures history
unfolding new_tracker record_success record_failure
counted name threshold [] = refl
counted name threshold (true ∷ history) = refl
counted name threshold (false ∷ history) = ap (λ n. n + 1) (counted name threshold history)

tracked :
    (name : String) (threshold : ℕ) (history : List Bool)
    → (tracker_after name threshold history).state ≡ expected_state threshold history
unfolding new_tracker record_success record_failure
tracked name threshold [] = refl
tracked name threshold (true ∷ history) = refl
tracked name threshold (false ∷ history) =
    rw (kept_threshold name threshold history, counted name threshold history) refl

-- Behind any history, a tracker counts the failures since the last success. It reports a provider as
-- unhealthy exactly when the last interaction failed and these failures reach the threshold, as
-- degraded when they are fewer, and as healthy behind a success or before any interaction.
pub tracker_lem :
    (name now : String) (threshold : ℕ) (history : List Bool)
    → ((tracker_after name threshold history).consecutive_failures ≡ recent_failures history)
      × ((check_health now (tracker_after name threshold history)).state
          ≡ expected_report threshold history)
unfolding check_health
tracker_lem name now threshold history = (
  counted name threshold history,
  ap to_health_state (tracked name threshold history) ∙ reported_state threshold history,
)
