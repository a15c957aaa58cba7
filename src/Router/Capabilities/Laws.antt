-- ===== src/Router/Capabilities/Laws.antt =====
-- Well-formed capabilities, and the effect of health on them.
use ascended_core.Base.{
  String, ◌≡◌, ◌≢◌, ◌↔◌, ◌⊎◌, refl, Bool, true, false, none, some, arith, includes, eq_iff,
  str_eq_comm,
}
use ascended_core.Privacy.Modes.{Platform, web, ios, android, macos, linux, desktop, private_local}
use ascended_core.Privacy.Policy.{cloud_families, default_policy_for_mode}
use ascended_core.Router.Providers.{CapabilityDescriptor}
use ascended_core.Router.Capabilities.{
  ProviderDomain, text, image, three_d, ai_recommendation, human_recommendation, CapabilityQuery,
  available, unavailable, ProviderHealthSnapshot, local_capability, is_cloud_family,
  get_baseline_capability, apply_health_to_capability,
}

-- A reason is given exactly when the capability is not available.
abbrev pub IsExplained : CapabilityDescriptor → Type 0
IsExplained c = (c.available ≡ false) ↔ (c.unavailable_reason ≢ none)

local_capability-IsExplained :
    (d : ProviderDomain) (p : Platform) → IsExplained (local_capability d p)
unfolding local_capability
local_capability-IsExplained text p = ground arith
local_capability-IsExplained image p = ground arith
local_capability-IsExplained three_d p = ground arith
local_capability-IsExplained ai_recommendation p = ground arith
local_capability-IsExplained human_recommendation p = ground arith

-- The baseline gives a reason exactly when it denies the capability.
baseline-IsExplained : (q : CapabilityQuery) → IsExplained (get_baseline_capability q)
unfolding get_baseline_capability
baseline-IsExplained q = ground (arith, local_capability-IsExplained q.domain q.platform)

-- what runs on the device, by platform
abbrev pub runs_locally : ProviderDomain → Platform → Bool
runs_locally text ios = false
runs_locally text android = false
runs_locally text _ = true
runs_locally image linux = true
runs_locally image macos = true
runs_locally image desktop = true
runs_locally three_d linux = true
runs_locally three_d macos = true
runs_locally three_d desktop = true
runs_locally _ _ = false

local_lem :
    (d : ProviderDomain) (p : Platform) → (local_capability d p).available ≡ runs_locally d p
unfolding local_capability
local_lem text web = refl
local_lem text p = ground arith
local_lem image linux = refl
local_lem image p = ground arith
local_lem three_d linux = refl
local_lem three_d p = ground arith
local_lem ai_recommendation p = ground arith
local_lem human_recommendation p = ground arith

is_cloud_family_lem : (family : String) → is_cloud_family family ≡ includes family cloud_families
unfolding is_cloud_family
is_cloud_family_lem family =
    rw
      (
        str_eq_comm family "cloud-text",
        str_eq_comm family "cloud-image",
        str_eq_comm family "cloud-3d",
        str_eq_comm family "remote-inference",
        str_eq_comm family "embeddings",
      )
      (ground arith)

-- An unavailable provider is never made available, a degraded one stays available with a reason, and
-- folding in the same health a second time changes nothing.
pub apply_health_lem :
    (c : CapabilityDescriptor) (h : ProviderHealthSnapshot)
    → let folded = apply_health_to_capability c (some h) in
      ((folded.available ≡ true) ↔ ((c.available ≡ true) × (h.state ≢ unavailable)))
      × ((c.available ≡ false) ⊎ ((h.state ≡ available) ⊎ (folded.unavailable_reason ≢ none)))
      × (apply_health_to_capability folded (some h) ≡ folded)
unfolding apply_health_to_capability
apply_health_lem c h = ground arith

-- Under the default policy of Private Local mode, the baseline offers an unblocked family only where
-- nothing leaves the device: human results, or local inference on a platform that runs the domain.
pub private_local_baseline :
    (q : CapabilityQuery)
    → includes q.family (default_policy_for_mode private_local).blocked_families ≡ false
    → ((get_baseline_capability q).available ≡ true)
      ↔ ((q.family ≡ "human") ⊎ ((q.family ≡ "local") × (runs_locally q.domain q.platform ≡ true)))
unfolding get_baseline_capability default_policy_for_mode
private_local_baseline q h = ground (
  arith,
  eq_iff q.family "human",
  eq_iff q.family "local",
  is_cloud_family_lem q.family,
  local_lem q.domain q.platform,
)
