-- ===== src/Core/Lifecycle.antt =====
-- packages/core/src/lifecycle.ts: health states and reports. A timestamp is a text.
use ascended_core.Base.{String, Bool, Option}
use ascended_core.Base.Dict.{Dict}
use ascended_core.Core.Value.{Metadata}

pub data HealthState : Type 0 where
  healthy degraded unhealthy : HealthState

pub record HealthReport : Type 0 where
  pub state : HealthState
  pub reason : Option String
  pub checked_at : String
  pub details : Option Metadata

pub record ProbeStatus : Type 0 where
  pub live : Bool
  pub ready : Bool
  pub components : Option (Dict HealthReport)
