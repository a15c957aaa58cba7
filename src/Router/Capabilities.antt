-- ===== src/Router/Capabilities.antt =====
-- packages/ai-router/src/capabilities.ts. A family is any text, as in the policies.
pub mod Laws
use ascended_core.Base.{
  ℕ, String, Bool, true, false, Option, none, some, ◌||◌, str_eq, if◌then◌else◌,
}
use ascended_core.Core.Lifecycle.{HealthState, healthy, unhealthy}
use ascended_core.Privacy.Modes.{Platform, web, ios, android, macos, windows, linux, desktop}
use ascended_core.Router.Providers.{CapabilityDescriptor}

pub data ProviderDomain : Type 0 where
  text image three_d ai_recommendation human_recommendation : ProviderDomain

pub record CapabilityQuery : Type 0 where
  pub domain : ProviderDomain
  pub family : String
  pub platform : Platform

pub data ProviderState : Type 0 where
  available degraded unavailable : ProviderState

pub record ProviderHealthSnapshot : Type 0 where
  pub provider_name : String
  pub state : ProviderState
  pub checked_at : String
  pub reason : Option String

-- the helpers `unavailable` and `available`, the latter with a latency and the install flag
abbrev unavailable_for : String → CapabilityDescriptor
unavailable_for reason = record {
  available = false;
  unavailable_reason = some reason;
  estimated_latency_ms = none;
  requires_explicit_install = none;
  download_size_bytes = none;
}

abbrev available_in : ℕ → Option Bool → CapabilityDescriptor
available_in latency install = record {
  available = true;
  unavailable_reason = none;
  estimated_latency_ms = some latency;
  requires_explicit_install = install;
  download_size_bytes = none;
}

local_text_capability : Platform → CapabilityDescriptor
local_text_capability linux = available_in 900 (some true)
local_text_capability macos = available_in 900 (some true)
local_text_capability desktop = available_in 900 (some true)
local_text_capability windows = available_in 1100 (some true)
local_text_capability web = available_in 1500 (some true)
local_text_capability ios =
    unavailable_for "Local text inference is not enabled on this mobile platform"
local_text_capability android =
    unavailable_for "Local text inference is not enabled on this mobile platform"

local_image_capability : Platform → CapabilityDescriptor
local_image_capability linux = available_in 2500 (some true)
local_image_capability desktop = available_in 2500 (some true)
local_image_capability macos = available_in 2200 (some true)
local_image_capability _ = unavailable_for "Local image generation unavailable on this platform"

local_3d_capability : Platform → CapabilityDescriptor
local_3d_capability linux = available_in 4000 (some true)
local_3d_capability desktop = available_in 4000 (some true)
local_3d_capability macos = available_in 4500 (some true)
local_3d_capability _ = unavailable_for "Local 3D generation unavailable on this platform"

-- `switch (domain)` for the local family
pub local_capability : ProviderDomain → Platform → CapabilityDescriptor
unfolding local_text_capability local_image_capability local_3d_capability
local_capability text platform = local_text_capability platform
local_capability image platform = local_image_capability platform
local_capability three_d platform = local_3d_capability platform
local_capability ai_recommendation platform =
    unavailable_for "Local recommendation ranking is not implemented"
local_capability human_recommendation platform =
    unavailable_for "Human recommendation cannot use the local family"

is_cloud_family : String → Bool
is_cloud_family family =
    str_eq family "cloud-text"
    || str_eq family "cloud-image"
    || str_eq family "cloud-3d"
    || str_eq family "remote-inference"
    || str_eq family "embeddings"

pub get_baseline_capability : CapabilityQuery → CapabilityDescriptor
unfolding local_capability
get_baseline_capability query =
    if str_eq query.family "human"
    then available_in 120 none
    else if is_cloud_family query.family
    then available_in 600 none
    else if str_eq query.family "local"
    then local_capability query.domain query.platform
    else unavailable_for "No baseline capability rule found for this query"

-- `health.reason ?? message`
abbrev reason_or : Option String → String → String
reason_or none message = message
reason_or (some reason) message = reason

-- the health of an available capability
fold_state : CapabilityDescriptor → ProviderHealthSnapshot → ProviderState → CapabilityDescriptor
fold_state capability health available = capability
fold_state capability health degraded = record capability {
  unavailable_reason =
      some (reason_or health.reason "Provider is degraded (higher latency or lower quality)");
}
fold_state capability health unavailable = record capability {
  available = false;
  unavailable_reason = some (reason_or health.reason "Provider currently unavailable");
}

pub apply_health_to_capability :
    CapabilityDescriptor → Option ProviderHealthSnapshot → CapabilityDescriptor
unfolding fold_state
apply_health_to_capability capability none = capability
apply_health_to_capability capability (some health) =
    if capability.available then fold_state capability health health.state else capability

provider_state_from_health : HealthState → ProviderState
provider_state_from_health healthy = available
provider_state_from_health HealthState.degraded = degraded
provider_state_from_health unhealthy = unavailable
