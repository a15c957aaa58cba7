-- ===== src/Router/Attempt/Laws.antt =====
-- The order of the attempts: candidate lists compose, blocked candidates are passed over, and a
-- route settles.
use ascended_core.Base.{
  ℕ, zero, suc, ◌≡◌, ◌<◌, ◌≢◌, refl, none, some, List, [], ◌∷◌, ◌++◌, map, arith, All, Bool-cases,
  inl, inr,
}
use mathlib.Core.List.{append_assoc, append-nil}
use ascended_core.Core.Errors.{Thrown}
use ascended_core.Core.Result.{ok, err}
use ascended_core.Router.Providers.{
  Promised, fulfils, rejects, pending, CapabilityDescriptor, ProviderResponse,
}
use ascended_core.Router.Attempt.{
  RouteAttempt, route_exhausted, Awaited, resolved, threw, timed_out, never, with_timeout,
  Candidate, Routed, failed, check_reason, after_execute, after_check, attempt_from,
}

-- a positive timeout always ends the wait
with_timeout-ne-never : {A : Type 0} (p : Promised A) (t : ℕ) → 0 < t → with_timeout p t ≢ never
unfolding with_timeout
with_timeout-ne-never p zero h = absurd (omega arith)
with_timeout-ne-never (fulfils n a) (suc t) h = ground arith
with_timeout-ne-never (rejects n e) (suc t) h = ground arith
with_timeout-ne-never pending (suc t) h = cc

module _ {W T : Type 0} where
  -- what a list of candidates comes to, handed on to more candidates where it is exhausted
  abbrev pub or_next : Routed W T → (List RouteAttempt → W → Routed W T) → Routed W T
  or_next (none, w) next = (none, w)
  or_next (some (ok r), w) next = (some (ok r), w)
  or_next (some (err e), w) next = next e.attempts w

  after_execute-or_next :
      (c : Candidate W T) (attempts : List RouteAttempt)
      (f next : List RouteAttempt → W → Routed W T) (g : List RouteAttempt → W → Routed W T)
      → ((log : List RouteAttempt) (w : W) → g log w ≡ or_next (f log w) next)
      → (awaited : Awaited (ProviderResponse T)) (w : W)
      → after_execute c attempts g awaited w ≡ or_next (after_execute c attempts f awaited w) next
  after_execute-or_next c attempts f next g h (resolved r) w = refl
  after_execute-or_next c attempts f next g h (threw e) w = h _ w
  after_execute-or_next c attempts f next g h timed_out w = h _ w
  after_execute-or_next c attempts f next g h never w = refl

  after_check-or_next :
      (t : ℕ) (c : Candidate W T) (attempts : List RouteAttempt)
      (f next : List RouteAttempt → W → Routed W T) (g : List RouteAttempt → W → Routed W T)
      → ((log : List RouteAttempt) (w : W) → g log w ≡ or_next (f log w) next)
      → (p : Promised CapabilityDescriptor) (w : W)
      → after_check t c attempts g p w ≡ or_next (after_check t c attempts f p w) next
  after_check-or_next t c attempts f next g h (fulfils n capability) w =
      elim (Bool-cases capability.available) [
        | inl ready ↦ rw (ready) (
            let (promise, w') = c.execute w in
            after_execute-or_next c attempts f next g h (with_timeout promise t) w')
        | inr unready ↦ rw unready (h _ w)
      ]
  after_check-or_next t c attempts f next g h (rejects n e) w = h _ w
  after_check-or_next t c attempts f next g h pending w = refl

  -- Routing over two lists is routing over the first, and over the second with the log of the first
  -- when every candidate of the first has failed.
  pub attempt_from-append :
      (t : ℕ) (cs ds : List (Candidate W T)) (attempts : List RouteAttempt) (w : W)
      → attempt_from t (cs ++ ds) attempts w
        ≡ or_next (attempt_from t cs attempts w) (attempt_from t ds)
  unfolding attempt_from route_exhausted
  attempt_from-append t [] ds attempts w = refl
  attempt_from-append t (c ∷ cs) ds attempts w =
      let (promise, w') = c.check w in
      after_check-or_next t c attempts (attempt_from t cs) (attempt_from t ds)
        (attempt_from t (cs ++ ds)) (attempt_from-append t cs ds) promise w'

  -- The check blocks its candidate, and leaves the world as it was.
  abbrev pub IsBlocked : W → Candidate W T → Type 0
  IsBlocked w c =
      (e : Thrown) × (c.check w ≡ (rejects 0 e, w)) × (check_reason e ≡ "privacy_blocked")

  abbrev pub blocked_log : List (Candidate W T) → List RouteAttempt
  blocked_log = map (λ c. failed c "privacy_blocked")

  -- Blocked candidates are logged, nothing of them is called, and the world stays as it was.
  pub attempt_from_blocked :
      (t : ℕ) (cs : List (Candidate W T)) (attempts : List RouteAttempt) (w : W)
      → All (IsBlocked w) cs
      → attempt_from t cs attempts w
        ≡ (some (err (route_exhausted (attempts ++ blocked_log cs))), w)
  unfolding attempt_from
  attempt_from_blocked t [] attempts w h = rw append-nil
  attempt_from_blocked t (c ∷ cs) attempts w ((e, refused, why), h) =
      rw (refused, why)
        (rw (attempt_from_blocked t cs (attempts ++ failed c "privacy_blocked" ∷ []) w h)
          (rw append_assoc))

  after_execute-ne-none :
      (c : Candidate W T) (attempts : List RouteAttempt) (next : List RouteAttempt → W → Routed W T)
      (awaited : Awaited (ProviderResponse T)) (w : W)
      → awaited ≢ never
      → ((log : List RouteAttempt) (w : W) → (next log w).0 ≢ none)
      → (after_execute c attempts next awaited w).0 ≢ none
  after_execute-ne-none c attempts next (resolved r) w k h = cc
  after_execute-ne-none c attempts next (threw e) w k h = h _ w
  after_execute-ne-none c attempts next timed_out w k h = h _ w
  after_execute-ne-none c attempts next never w k h = absurd (k refl)

  after_check-ne-none :
      (t : ℕ) (c : Candidate W T) (attempts : List RouteAttempt)
      (next : List RouteAttempt → W → Routed W T) (p : Promised CapabilityDescriptor) (w : W)
      → 0 < t
      → p ≢ pending
      → ((log : List RouteAttempt) (w : W) → (next log w).0 ≢ none)
      → (after_check t c attempts next p w).0 ≢ none
  after_check-ne-none t c attempts next (fulfils n capability) w pos k h =
      elim (Bool-cases capability.available) [
        | inl ready ↦ rw ready (
            let (promise, w') = c.execute w in
            after_execute-ne-none c attempts next (with_timeout promise t) w'
              (with_timeout-ne-never promise t pos) h)
        | inr unready ↦ rw unready (h _ w)
      ]
  after_check-ne-none t c attempts next (rejects n e) w pos k h = h _ w
  after_check-ne-none t c attempts next pending w pos k h = absurd (k refl)

  abbrev pub Settles : Candidate W T → Type 0
  Settles c = (w : W) → (c.check w).0 ≢ pending

  -- A route settles, whatever its providers do, if the timeout is positive and every capability
  -- check settles.
  pub attempt_from-Settles :
      (t : ℕ) (cs : List (Candidate W T)) (attempts : List RouteAttempt) (w : W)
      → 0 < t
      → All Settles cs
      → (attempt_from t cs attempts w).0 ≢ none
  unfolding attempt_from
  attempt_from-Settles t [] attempts w pos h = cc
  attempt_from-Settles t (c ∷ cs) attempts w pos (k, h) =
      let (promise, w') = c.check w in
      after_check-ne-none t c attempts (attempt_from t cs) promise w' pos (k w)
        (λ log v. attempt_from-Settles t cs log v pos h)

  -- A capability check is awaited without a timeout: behind blocked candidates, one check that stays
  -- pending keeps the route from settling, whatever the timeout and the candidates behind it.
  pub pending_check_hangs :
      (t : ℕ) (before after : List (Candidate W T)) (c : Candidate W T) (w : W)
      → All (IsBlocked w) before
      → (c.check w).0 ≡ pending
      → (attempt_from t (before ++ c ∷ after) [] w).0 ≡ none
  pending_check_hangs t before after c w blocked hang =
      rw (attempt_from-append, attempt_from_blocked t before [] w blocked)
        (unfold attempt_from in unfold route_exhausted in rw hang)
