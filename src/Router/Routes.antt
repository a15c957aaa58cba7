-- ===== src/Router/Routes.antt =====
-- packages/ai-router/src/router.ts: the routed operations. The host gives the policy that the
-- shared enforcer holds and the timestamp of the clock, both as the world has them when a check runs.
pub mod Laws
use ascended_core.Base.{ℕ, String, Bool, true, false, Option, none, some, List, ◌++◌, map}
use ascended_core.Core.Errors.{core_error, unsupported, core, Thrown}
use ascended_core.Core.Result.{ok, err}
use ascended_core.Privacy.Context.{RequestContext}
use ascended_core.Privacy.Policy.{PrivacyPolicy}
use ascended_core.Privacy.Enforcer.{validate_provider_call}
use ascended_core.Router.Providers.{
  fulfils, rejects, Call, CapabilityDescriptor, ProviderResponse, completion, generation,
  text_to_3d, animating, ranking, TextAiProvider, ImageAiProvider, ThreeDProvider,
  AiRecommendationProvider, HumanRecommendationProvider,
}
use ascended_core.Router.Attempt.{Candidate, Routed, attempt_candidates}

pub record Host (W : Type 0) : Type 0 where
  pub policy : W → PrivacyPolicy
  pub now : W → String

module _ {W : Type 0} (host : Host W) (context : RequestContext) where
  -- `enforcer.validateProviderCall(…); return …`
  pub validated : String → String → Call W CapabilityDescriptor → Call W CapabilityDescriptor
  validated name family call w =
      elim (validate_provider_call (host.policy w) (host.now w) name family context) [
        | err e ↦ (rejects 0 e, w)
        | ok _ ↦ call w
      ]

  module _ {Request Response : Type 0} (request : Request) where
    pub text_candidate : TextAiProvider W Request Response → Candidate W Response
    text_candidate provider = record {
      name = provider.name;
      family = provider.family;
      check =
          validated provider.name provider.family
            (provider.check_capability context.platform completion);
      execute = provider.completion request context;
    }

    pub image_candidate : ImageAiProvider W Request Response → Candidate W Response
    image_candidate provider = record {
      name = provider.name;
      family = provider.family;
      check =
          validated provider.name provider.family
            (provider.check_capability context.platform generation);
      execute = provider.generation request context;
    }

    pub ai_candidate : AiRecommendationProvider W Request Response → Candidate W Response
    ai_candidate provider = record {
      name = provider.name;
      family = provider.family;
      check =
          validated provider.name provider.family
            (provider.check_capability context.platform ranking);
      execute = provider.rank request context;
    }

    pub human_candidate : HumanRecommendationProvider W Request Response → Candidate W Response
    human_candidate provider = record {
      name = provider.name;
      family = "human";
      check = validated provider.name "human" (provider.check_capability context.platform);
      execute = provider.rank request context;
    }

    pub route_text_completion :
        List (TextAiProvider W Request Response) → Option ℕ → W → Routed W Response
    unfolding text_candidate
    route_text_completion providers timeout_ms =
        attempt_candidates (map text_candidate providers) timeout_ms

    pub route_image_generation :
        List (ImageAiProvider W Request Response) → Option ℕ → W → Routed W Response
    unfolding image_candidate
    route_image_generation providers timeout_ms =
        attempt_candidates (map image_candidate providers) timeout_ms

    -- the AI providers stand in front of the human ones
    pub route_recommendation :
        List (AiRecommendationProvider W Request Response)
        → List (HumanRecommendationProvider W Request Response)
        → Option ℕ
        → W
        → Routed W Response
    unfolding ai_candidate human_candidate
    route_recommendation ai_providers human_providers timeout_ms =
        attempt_candidates (map ai_candidate ai_providers ++ map human_candidate human_providers)
          timeout_ms

module _ {W Request Response Animated : Type 0} (host : Host W) (context : RequestContext) where
  pub model_candidate : Request → ThreeDProvider W Request Response Animated → Candidate W Response
  model_candidate request provider = record {
    name = provider.name;
    family = provider.family;
    check =
        validated host context provider.name provider.family
          (provider.check_capability context.platform text_to_3d);
    execute = provider.text_to_3d request context;
  }

  -- `check` of an animation, behind the enforcer
  pub check_animate : ThreeDProvider W Request Response Animated → Call W CapabilityDescriptor
  check_animate provider w = elim provider.animate [
    | none ↦ (
      fulfils 0 (record {
        available = false;
        unavailable_reason = some "Animate operation not implemented";
        estimated_latency_ms = none;
        requires_explicit_install = none;
        download_size_bytes = none;
      }),
      w,
    )
    | some animate ↦ provider.check_capability context.platform animating w
  ]

  pub execute_animate :
      String
      → String
      → ThreeDProvider W Request Response Animated
      → Call W (ProviderResponse Animated)
  execute_animate model prompt provider w = elim provider.animate [
    | none ↦ (rejects 0 (core (core_error unsupported "Animate operation not implemented")), w)
    | some animate ↦ animate model prompt context w
  ]

  pub animate_candidate :
      String → String → ThreeDProvider W Request Response Animated → Candidate W Animated
  unfolding check_animate execute_animate
  animate_candidate model prompt provider = record {
    name = provider.name;
    family = provider.family;
    check = validated host context provider.name provider.family (check_animate provider);
    execute = execute_animate model prompt provider;
  }

  pub route_3d_text_to_model :
      List (ThreeDProvider W Request Response Animated) → Request → Option ℕ → W → Routed W Response
  unfolding model_candidate
  route_3d_text_to_model providers request timeout_ms =
      attempt_candidates (map (model_candidate request) providers) timeout_ms

  pub route_3d_animate :
      List (ThreeDProvider W Request Response Animated)
      → String
      → String
      → Option ℕ
      → W
      → Routed W Animated
  unfolding animate_candidate
  route_3d_animate providers model prompt timeout_ms =
      attempt_candidates (map (animate_candidate model prompt) providers) timeout_ms
