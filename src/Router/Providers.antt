-- ===== src/Router/Providers.antt =====
-- packages/ai-router/src/providers.ts. A provider is not code of this repository: its operations
-- are calls that act on a world `W` and give a promise. Requests and responses are parameters,
-- since the router never reads them; so of each interface only the operations that the router
-- calls are fields.
use ascended_core.Base.{ℕ, String, Bool, Option}
use ascended_core.Core.Errors.{Thrown}
use ascended_core.Privacy.Modes.{Platform}
use ascended_core.Privacy.Context.{RequestContext}

-- A promise: it fulfils or rejects after so many milliseconds, or stays pending for ever.
pub data Promised (A : Type 0) : Type 0 where
  fulfils : ℕ → A → Promised A
  rejects : ℕ → Thrown → Promised A
  pending : Promised A

abbrev pub Call : Type 0 → Type 0 → Type 0
Call W A = W → Promised A × W

pub record CapabilityDescriptor : Type 0 where
  pub available : Bool
  pub unavailable_reason : Option String
  pub estimated_latency_ms : Option ℕ
  pub requires_explicit_install : Option Bool
  pub download_size_bytes : Option ℕ

pub record ProviderTelemetry : Type 0 where
  pub provider : String
  pub family : String
  pub request_id : String
  pub event_type : String
  pub latency_ms : ℕ
  pub reason : Option String

pub record ProviderResponse (T : Type 0) : Type 0 where
  pub payload : T
  pub degraded : Bool
  pub degradation_reason : Option String
  pub telemetry : ProviderTelemetry

pub data TextOperation : Type 0 where
  completion classification extraction summarization : TextOperation

pub data ImageOperation : Type 0 where
  generation inpainting upscaling : ImageOperation

pub record TextAiProvider (W Request Response : Type 0) : Type 0 where
  pub name : String
  pub family : String
  pub check_capability : Platform → TextOperation → Call W CapabilityDescriptor
  pub completion : Request → RequestContext → Call W (ProviderResponse Response)

pub record ImageAiProvider (W Request Response : Type 0) : Type 0 where
  pub name : String
  pub family : String
  pub check_capability : Platform → ImageOperation → Call W CapabilityDescriptor
  pub generation : Request → RequestContext → Call W (ProviderResponse Response)

pub data ThreeDOperation : Type 0 where
  text_to_3d image_to_3d refine animating validate_upload : ThreeDOperation

-- `animate` is optional
pub record ThreeDProvider (W Request Response Animated : Type 0) : Type 0 where
  pub name : String
  pub family : String
  pub check_capability : Platform → ThreeDOperation → Call W CapabilityDescriptor
  pub text_to_3d : Request → RequestContext → Call W (ProviderResponse Response)
  pub animate : Option (String → String → RequestContext → Call W (ProviderResponse Animated))

pub data RecommendationOperation : Type 0 where
  ranking searching classifying : RecommendationOperation

pub record AiRecommendationProvider (W Request Response : Type 0) : Type 0 where
  pub name : String
  pub family : String
  pub check_capability : Platform → RecommendationOperation → Call W CapabilityDescriptor
  pub rank : Request → RequestContext → Call W (ProviderResponse Response)

-- its family is "human", always
pub record HumanRecommendationProvider (W Request Response : Type 0) : Type 0 where
  pub name : String
  pub check_capability : Platform → Call W CapabilityDescriptor
  pub rank : Request → RequestContext → Call W (ProviderResponse Response)
