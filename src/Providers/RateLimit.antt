-- ===== src/Providers/RateLimit.antt =====
-- packages/providers/src/rate-limit.ts. The clock's milliseconds are an argument of `consume`. A
-- limit, a cost and a window's length are naturals, the length a positive one: the source computes no
-- window of length 0.
pub mod Budget
use ascended_core.Base.{
  ℕ, ◌+◌, ◌-◌, ◌*◌, ◌/◌, ◌%◌, String, Bool, true, false, Option, none, some, List, [], ◌∷◌, ltb,
  ◌==◌, if◌then◌else◌,
}
use ascended_core.Base.Dict
use ascended_core.Base.Dict.{Dict}

pub record RateLimitDecision : Type 0 where
  pub allowed : Bool
  pub remaining : ℕ
  pub retry_after_seconds : Option ℕ

pub record WindowState : Type 0 where
  pub window_start : ℕ
  pub used : ℕ

pub record FixedWindowRateLimiter : Type 0 where
  pub windows : Dict WindowState
  pub limit : ℕ
  pub window_ms : ℕ

-- `nowMs - (nowMs % this.windowMs)`
unfoldable pub current_start : ℕ → ℕ → ℕ
current_start now_ms window_ms = now_ms - now_ms % window_ms

-- the state of the key's current window, a new one if it has another or none
unfoldable pub current_state : Option WindowState → ℕ → WindowState
current_state none start = record { window_start = start; used = 0 }
current_state (some state) start =
    if state.window_start == start then state else record { window_start = start; used = 0 }

-- `Math.ceil(resetInMs / 1000)`
pub retry_after : ℕ → ℕ → ℕ
retry_after now_ms window_ms = (current_start now_ms window_ms + window_ms - now_ms + 999) / 1000

-- behind the look-up of the window
decide_in :
    String
    → ℕ
    → ℕ
    → WindowState
    → FixedWindowRateLimiter
    → RateLimitDecision × FixedWindowRateLimiter
decide_in key cost retry state limiter =
    if ltb limiter.limit (state.used + cost)
    then (
      record {
        allowed = false;
        remaining = limiter.limit - state.used;
        retry_after_seconds = some retry;
      },
      record limiter { windows = Dict.set key state limiter.windows },
    )
    else (
      record {
        allowed = true;
        remaining = limiter.limit - (state.used + cost);
        retry_after_seconds = none;
      },
      record limiter {
        windows = Dict.set key (record state { used = state.used + cost }) limiter.windows;
      },
    )

pub consume : String → ℕ → ℕ → FixedWindowRateLimiter → RateLimitDecision × FixedWindowRateLimiter
unfolding current_state decide_in
consume key cost now_ms limiter =
    let start = current_start now_ms limiter.window_ms in
    decide_in key cost (retry_after now_ms limiter.window_ms)
      (current_state (Dict.get key limiter.windows) start) limiter
