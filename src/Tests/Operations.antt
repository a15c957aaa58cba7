-- ===== src/Tests/Operations.antt =====
-- The rate limiter, health and notifications at concrete inputs.
use ascended_core.Base.{
  ℕ, ◌+◌, ◌≤◌, ◌≡◌, ◌↔◌, refl, Bool, true, false, none, some, List, [], ◌∷◌, map, All, arith,
}
use ascended_core.Base.Dict
use ascended_core.Core.Value.{end}
use ascended_core.Core.Errors.{js_error}
use ascended_core.Core.Lifecycle.{healthy}
use ascended_core.Core.Result.{ok, err}
use ascended_core.Providers.RateLimit.{FixedWindowRateLimiter, current_start, current_state}
use ascended_core.Providers.RateLimit.Budget.{
  used_in, ConsumeCall, granted, granted_bound, IsWithin,
}
use ascended_core.Observability.Health.{Outcome, readiness, check_health}
use ascended_core.Observability.Health.Laws.{
  ReportsHealthy, readiness_lem, tracker_after, recent_failures, expected_report, tracker_lem,
}
use ascended_core.Notifications.Preferences.{
  NotificationRequest, in_app, email, NotificationPreferences, allow_all_preferences,
  DeliveryAttempt,
}
use ascended_core.Notifications.Service.{Ports, notify}
use ascended_core.Notifications.Service.Laws.{IsHonoured, wanted_channels, notify_lem}

abbrev limiter : FixedWindowRateLimiter
limiter = record { windows = []; limit = 3; window_ms = 1000 }

abbrev calls : List ConsumeCall
calls = ("a", 2, 1500) ∷ ("b", 3, 1600) ∷ ("a", 2, 1999) ∷ []

calls-IsWithin : All (IsWithin 1000 1000) calls
unfolding current_start
calls-IsWithin = (refl, (refl, (refl, tt)))

nothing_used : used_in "a" 1000 limiter ≤ 3
unfolding used_in current_state Dict.get
nothing_used = omega arith

granted_bound_example : granted "a" calls limiter + used_in "a" 1000 limiter ≤ 3
granted_bound_example = granted_bound "a" 1000 calls limiter calls-IsWithin nothing_used

abbrev outcomes : List Outcome
outcomes =
    ("db", ok (record { state = healthy; reason = none; checked_at = "t"; details = none }))
    ∷ ("mail", err (js_error "refused"))
    ∷ []

readiness_lem_example : ((readiness "t" outcomes).ready ≡ true) ↔ All ReportsHealthy outcomes
readiness_lem_example = readiness_lem "t" outcomes

abbrev history : List Bool
history = false ∷ false ∷ false ∷ true ∷ false ∷ []

tracker_lem_example :
    ((tracker_after "p" 3 history).consecutive_failures ≡ recent_failures history)
    × ((check_health "t" (tracker_after "p" 3 history)).state ≡ expected_report 3 history)
tracker_lem_example = tracker_lem "p" "t" 3 history

-- the senders count their calls; the one of mails throws
abbrev ports_with : NotificationPreferences → Ports ℕ
ports_with prefs = record {
  publish = λ account template w. (ok tt, w);
  preferences = λ account w. (ok prefs, w);
  deliver_in_app = λ request w. (ok tt, w + 1);
  deliver_email = λ request w. (err (js_error "refused"), w + 1);
  deliver_push = λ request w. (ok tt, w + 1);
  now = λ w. "t";
}

abbrev welcome : NotificationRequest
welcome = record {
  recipient_account_id = "usr_ann";
  template = "welcome";
  template_data = end;
  channels = some (email ∷ in_app ∷ []);
  metadata = none;
}

abbrev mutes_welcome : NotificationPreferences
mutes_welcome = record { channels = λ channel. none; muted_templates = "welcome" ∷ [] }

notify_lem_example :
    (attempts : List DeliveryAttempt) × ((notify (ports_with allow_all_preferences) welcome 0).0
      ≡ ok attempts)
    × (map (λ a. a.channel) attempts ≡ wanted_channels welcome.channels)
    × All (IsHonoured (ports_with allow_all_preferences) allow_all_preferences welcome) attempts
notify_lem_example =
    notify_lem (ports_with allow_all_preferences) allow_all_preferences welcome 0 0 0 refl refl
