-- ===== src/Notifications/Preferences.antt =====
-- packages/notifications/src/types.ts and preferences.ts. The `Record` of the channels is a function
-- that gives `none` for a channel it does not list.
use ascended_core.Base.{String, Bool, true, Option, none, some, List, []}
use ascended_core.Base.Dict
use ascended_core.Base.Dict.{Dict}
use ascended_core.Core.Value.{Fields, Metadata}

pub data NotificationChannel : Type 0 where
  in_app email push : NotificationChannel

pub record NotificationRequest : Type 0 where
  pub recipient_account_id : String
  pub template : String
  pub template_data : Fields
  pub channels : Option (List NotificationChannel)
  pub metadata : Option Metadata

pub data DeliveryState : Type 0 where
  queued sent failed skipped : DeliveryState

pub record DeliveryAttempt : Type 0 where
  pub channel : NotificationChannel
  pub state : DeliveryState
  pub attempted_at : String
  pub failure_reason : Option String

pub record NotificationPreferences : Type 0 where
  pub channels : NotificationChannel → Option Bool
  pub muted_templates : List String

pub allow_all_preferences : NotificationPreferences
allow_all_preferences = record { channels = λ channel. some true; muted_templates = [] }

-- `InMemoryPreferences`
unfoldable pub get_preferences : String → Dict NotificationPreferences → NotificationPreferences
get_preferences account store = elim (Dict.get account store) [
  | none ↦ allow_all_preferences
  | some preferences ↦ preferences
]

unfoldable pub set_preferences :
    String → NotificationPreferences → Dict NotificationPreferences → Dict NotificationPreferences
set_preferences account preferences store = Dict.set account preferences store
