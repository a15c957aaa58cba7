-- ===== src/Providers/RateLimit/Budget.antt =====
-- What a window lets through.
use ascended_core.Base.{
  ℕ, ◌+◌, ◌-◌, ◌≤◌, String, ◌≡◌, ◌↔◌, ◌⊎◌, refl, sym, ap, ◌∙◌, true, false, Option, none, some,
  List, [], ◌∷◌, All, arith, ltb, ◌&&◌, str_eq, eq_iff, eq_refl, if◌then◌else◌, Bool-cases, inl,
  inr,
}
use ascended_core.Base.Dict
use ascended_core.Base.Dict.{get-set}
use ascended_core.Providers.RateLimit.{
  FixedWindowRateLimiter, WindowState, RateLimitDecision, current_start, current_state, retry_after,
  decide_in, consume,
}

-- what a key has used of the window that starts then
unfoldable pub used_in : String → ℕ → FixedWindowRateLimiter → ℕ
unfolding current_state
used_in key start limiter = (current_state (Dict.get key limiter.windows) start).used

used_in-set :
    (key : String) (state : WindowState) (limiter : FixedWindowRateLimiter)
    → used_in key state.window_start
        (record limiter { windows = Dict.set key state limiter.windows })
      ≡ state.used
unfolding used_in current_state
used_in-set key state limiter =
    let stored : Dict.get key (Dict.set key state limiter.windows) ≡ some state =
      get-set key key state limiter.windows ∙ (rw (eq_refl key) refl) in
    ap (λ o. (current_state o state.window_start).used) stored ∙ ground arith

current_state-start :
    (o : Option WindowState) (start : ℕ) → (current_state o start).window_start ≡ start
unfolding current_state
current_state-start none start = refl
current_state-start (some state) start = ground arith

-- what a decision says, and what it leaves of the window
abbrev pub IsFair :
    String
    → String
    → ℕ
    → WindowState
    → FixedWindowRateLimiter
    → RateLimitDecision × FixedWindowRateLimiter
    → Type 0
IsFair key other cost state limiter (decision, after) =
    ((decision.allowed ≡ true) ↔ (state.used + cost ≤ limiter.limit))
    × (decision.remaining ≡ limiter.limit - used_in key state.window_start after)
    × (used_in key state.window_start after
        ≡ (if decision.allowed then state.used + cost else state.used))
    × ((key ≡ other) ⊎ (Dict.get other after.windows ≡ Dict.get other limiter.windows))

decide_in-IsFair :
    (key other : String) (cost retry : ℕ) (state : WindowState) (limiter : FixedWindowRateLimiter)
    → IsFair key other cost state limiter (decide_in key cost retry state limiter)
unfolding decide_in
decide_in-IsFair key other cost retry state limiter =
    elim (Bool-cases (ltb limiter.limit (state.used + cost))) [
      | inl e ↦
          rw (e, used_in-set key state limiter, get-set key other state limiter.windows)
            (ground (arith, e, eq_iff key other))
      | inr e ↦
          rw
            (
              e,
              used_in-set key (record state { used = state.used + cost }) limiter,
              get-set key other (record state { used = state.used + cost }) limiter.windows,
            )
            (ground (arith, e, eq_iff key other))
    ]

-- the state that a call finds
abbrev pub window_of : String → ℕ → FixedWindowRateLimiter → WindowState
window_of key now_ms limiter =
    current_state (Dict.get key limiter.windows) (current_start now_ms limiter.window_ms)

-- A call is allowed exactly when its cost fits what is left of its key's window; the decision
-- reports what is left behind it, an allowed cost is used up, and every other key keeps its window.
pub consume-IsFair :
    (key other : String) (cost now_ms : ℕ) (limiter : FixedWindowRateLimiter)
    → IsFair key other cost (window_of key now_ms limiter) limiter (consume key cost now_ms limiter)
unfolding consume
consume-IsFair key other cost now_ms limiter =
    decide_in-IsFair key other cost (retry_after now_ms limiter.window_ms)
      (window_of key now_ms limiter) limiter

consume-limit :
    (key : String) (cost now_ms : ℕ) (limiter : FixedWindowRateLimiter)
    → ((consume key cost now_ms limiter).1.limit ≡ limiter.limit)
      × ((consume key cost now_ms limiter).1.window_ms ≡ limiter.window_ms)
unfolding consume decide_in
consume-limit key cost now_ms limiter =
    elim (Bool-cases (ltb limiter.limit ((window_of key now_ms limiter).used + cost))) [
      | inl e ↦ rw (e, consume, decide_in) (refl, refl)
      | inr e ↦ rw (e, consume, decide_in) (refl, refl)
    ]

-- a call with its key, its cost and its time
abbrev pub ConsumeCall : Type 0
ConsumeCall = String × ℕ × ℕ

-- what calls, one after another, are allowed to use on a key
abbrev pub granted : String → List ConsumeCall → FixedWindowRateLimiter → ℕ
granted key [] limiter = 0
granted key ((k, cost, now_ms) ∷ calls) limiter =
    let (decision, after) = consume k cost now_ms limiter in
    let rest = granted key calls after in
    if str_eq k key && decision.allowed then cost + rest else rest

used_in-consume_self :
    (key : String) (cost now_ms : ℕ) (limiter : FixedWindowRateLimiter)
    → used_in key (current_start now_ms limiter.window_ms) (consume key cost now_ms limiter).1 ≡ (
        if (consume key cost now_ms limiter).0.allowed
        then used_in key (current_start now_ms limiter.window_ms) limiter + cost
        else used_in key (current_start now_ms limiter.window_ms) limiter)
unfolding used_in
used_in-consume_self key cost now_ms limiter =
    let start = current_start now_ms limiter.window_ms in
    ap (λ at. used_in key at (consume key cost now_ms limiter).1)
      (sym (current_state-start (Dict.get key limiter.windows) start))
    ∙ (consume-IsFair key key cost now_ms limiter).2

other_window :
    (k key : String) (cost now_ms : ℕ) (limiter : FixedWindowRateLimiter)
    → str_eq k key ≡ false
    → Dict.get key (consume k cost now_ms limiter).1.windows ≡ Dict.get key limiter.windows
other_window k key cost now_ms limiter differ =
    ground (arith, (consume-IsFair k key cost now_ms limiter).3, eq_iff k key)

used_in-consume :
    (k key : String) (cost now_ms : ℕ) (limiter : FixedWindowRateLimiter)
    → used_in key (current_start now_ms limiter.window_ms) (consume k cost now_ms limiter).1 ≡ (
        if str_eq k key && (consume k cost now_ms limiter).0.allowed
        then used_in key (current_start now_ms limiter.window_ms) limiter + cost
        else used_in key (current_start now_ms limiter.window_ms) limiter)
unfolding used_in
used_in-consume k key cost now_ms limiter = elim (Bool-cases (str_eq k key)) [
  | inl same ↦ rw (same) (rw (← (eq_iff k key).0 same) (used_in-consume_self k cost now_ms limiter))
  | inr differ ↦ rw differ (
      ap (λ o. (current_state o (current_start now_ms limiter.window_ms)).used)
        (other_window k key cost now_ms limiter differ))
]

allowed_within :
    (key : String) (cost now_ms : ℕ) (limiter : FixedWindowRateLimiter)
    → (consume key cost now_ms limiter).0.allowed ≡ true
    → used_in key (current_start now_ms limiter.window_ms) limiter + cost ≤ limiter.limit
unfolding used_in
allowed_within key cost now_ms limiter h = (consume-IsFair key key cost now_ms limiter).0.0 h

-- the call falls into that window
abbrev pub IsWithin : ℕ → ℕ → ConsumeCall → Type 0
IsWithin window_ms start (k, cost, now_ms) = current_start now_ms window_ms ≡ start

-- behind a call, its window is as full as before, or fuller by what the call was allowed
after_call :
    (k key : String) (cost now_ms : ℕ) (limiter : FixedWindowRateLimiter)
    → used_in key (current_start now_ms limiter.window_ms) limiter ≤ limiter.limit
    → used_in key (current_start now_ms limiter.window_ms) (consume k cost now_ms limiter).1
      ≤ limiter.limit
after_call k key cost now_ms limiter le = elim (Bool-cases (str_eq k key)) [
  | inl same ↦
      rw (used_in-consume k key cost now_ms limiter, same)
        (rw (← (eq_iff k key).0 same) (elim (Bool-cases (consume k cost now_ms limiter).0.allowed) [
          | inl e ↦ rw e (allowed_within k cost now_ms limiter e)
          | inr e ↦ rw (e, (eq_iff k key).0 same) le
        ]))
  | inr differ ↦ rw (used_in-consume k key cost now_ms limiter, differ) le
]

-- Calls within one window, on any keys in any order, are together allowed no more of a key than was
-- left of its window before them.
pub granted_bound :
    (key : String) (start : ℕ) (calls : List ConsumeCall) (limiter : FixedWindowRateLimiter)
    → All (IsWithin limiter.window_ms start) calls
    → used_in key start limiter ≤ limiter.limit
    → granted key calls limiter + used_in key start limiter ≤ limiter.limit
granted_bound key start [] limiter h le = omega arith
granted_bound key start ((k, cost, now_ms) ∷ calls) limiter (within, h) le =
    let (same_limit, same_window) = consume-limit k cost now_ms limiter in
    let after = (consume k cost now_ms limiter).1 in
    let moved : All (IsWithin after.window_ms start) calls = rw same_window h in
    let left : used_in key start after ≤ after.limit =
      rw (← within, same_limit) (after_call k key cost now_ms limiter (rw within le)) in
    let later = granted_bound key start calls after moved left in
    let spent : used_in key start after ≡ (
        if str_eq k key && (consume k cost now_ms limiter).0.allowed
        then used_in key start limiter + cost
        else used_in key start limiter) =
      rw (← within) (used_in-consume k key cost now_ms limiter) in
    elim (Bool-cases (str_eq k key && (consume k cost now_ms limiter).0.allowed)) [
      | inl e ↦
          let used_up : used_in key start after ≡ used_in key start limiter + cost =
            spent ∙ (rw e refl) in
          rw e (omega (arith, later, used_up, same_limit))
      | inr e ↦
          let kept : used_in key start after ≡ used_in key start limiter = spent ∙ (rw e refl) in
          rw e (omega (arith, later, kept, same_limit))
    ]
