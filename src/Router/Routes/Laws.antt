-- ===== src/Router/Routes/Laws.antt =====
-- The privacy guarantees of the routes.
use ascended_core.Base.{ℕ, String, ◌≡◌, ◌≢◌, refl, Option, some, List, [], ◌∷◌, map, All, inl, inr}
use ascended_core.Core.Result.{ok, err}
use ascended_core.Privacy.Context.{RequestContext}
use ascended_core.Privacy.Enforcer.{validate_provider_call}
use ascended_core.Privacy.Enforcer.Laws.{validate-cases, block_error}
use ascended_core.Router.Providers.{
  rejects, Call, CapabilityDescriptor, TextAiProvider, AiRecommendationProvider,
  HumanRecommendationProvider,
}
use ascended_core.Router.Attempt.{
  Candidate, route_exhausted, check_reason, attempt_from, attempt_candidates, timeout_of,
}
use ascended_core.Router.Attempt.Laws.{
  IsBlocked, blocked_log, attempt_from_blocked, attempt_from-append,
}
use ascended_core.Router.Routes.{
  Host, validated, text_candidate, ai_candidate, human_candidate, route_text_completion,
  route_recommendation,
}

module _ {W : Type 0} (host : Host W) (context : RequestContext) where
  -- The policy in force in the world refuses the provider.
  abbrev pub IsRefused : W → String → String → Type 0
  IsRefused w name family =
      validate_provider_call (host.policy w) (host.now w) name family context ≢ ok tt

  validated_refused :
      (name family : String) (call : Call W CapabilityDescriptor) (w : W)
      → IsRefused w name family
      → validated host context name family call w
        ≡ (rejects 0 (block_error (host.policy w) (host.now w) name family context), w)
  unfolding validated
  validated_refused name family call w h =
      elim (validate-cases (host.policy w) (host.now w) name family context) [
        | inl passed ↦ absurd (h passed)
        | inr e ↦ rw (e, validated)
      ]

  validated-IsBlocked :
      {T : Type 0} (c : Candidate W T) (call : Call W CapabilityDescriptor) (w : W)
      → c.check ≡ validated host context c.name c.family call
      → IsRefused w c.name c.family
      → IsBlocked w c
  unfolding check_reason
  validated-IsBlocked c call w e h = (
    block_error (host.policy w) (host.now w) c.name c.family context,
    rw e (validated_refused c.name c.family call w h),
    refl,
  )

  module _ {Request Response : Type 0} (request : Request) where
    text-IsBlocked :
        (w : W) (ps : List (TextAiProvider W Request Response))
        → All (λ p. IsRefused w p.name p.family) ps
        → All (IsBlocked w) (map (text_candidate host context request) ps)
    unfolding text_candidate
    text-IsBlocked w [] h = tt
    text-IsBlocked w (p ∷ ps) (refused, h) = (
      validated-IsBlocked (text_candidate host context request p) _ w refl refused,
      text-IsBlocked w ps h,
    )

    -- If the policy in force refuses every text provider, the route calls none of them: the world is
    -- unchanged, and the error logs each provider as blocked, in order.
    pub route_text_completion_refused :
        (ps : List (TextAiProvider W Request Response)) (timeout_ms : Option ℕ) (w : W)
        → All (λ p. IsRefused w p.name p.family) ps
        → route_text_completion host context request ps timeout_ms w ≡ (
          some (err (route_exhausted (blocked_log (map (text_candidate host context request) ps)))),
          w,
        )
    unfolding route_text_completion attempt_candidates
    route_text_completion_refused ps timeout_ms w h =
        attempt_from_blocked (timeout_of timeout_ms) _ [] w (text-IsBlocked w ps h)

    ai-IsBlocked :
        (w : W) (ps : List (AiRecommendationProvider W Request Response))
        → All (λ p. IsRefused w p.name p.family) ps
        → All (IsBlocked w) (map (ai_candidate host context request) ps)
    unfolding ai_candidate
    ai-IsBlocked w [] h = tt
    ai-IsBlocked w (p ∷ ps) (refused, h) = (
      validated-IsBlocked (ai_candidate host context request p) _ w refl refused,
      ai-IsBlocked w ps h,
    )

    -- If the policy in force refuses every AI provider, a recommendation is what the human providers
    -- give in the world as it was, behind a log that names each AI provider as blocked.
    pub route_recommendation_refused :
        (ai : List (AiRecommendationProvider W Request Response))
        (humans : List (HumanRecommendationProvider W Request Response)) (timeout_ms : Option ℕ)
        (w : W)
        → All (λ p. IsRefused w p.name p.family) ai
        → route_recommendation host context request ai humans timeout_ms w
          ≡ attempt_from
              (timeout_of timeout_ms)
              (map (human_candidate host context request) humans)
              (blocked_log (map (ai_candidate host context request) ai))
              w
    unfolding route_recommendation attempt_candidates route_exhausted
    route_recommendation_refused ai humans timeout_ms w h = rw (
      attempt_from-append,
      attempt_from_blocked (timeout_of timeout_ms) _ [] w (ai-IsBlocked w ai h),
    )
