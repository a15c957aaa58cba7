-- ===== src/Notifications/Service.antt =====
-- packages/notifications/src/service.ts. The bus, the preferences and the senders are ports: calls
-- on a world, which may throw. The `default` of the sender's `switch` is no channel of the type.
pub mod Laws
use ascended_core.Base.{
  String, Bool, true, false, Option, none, some, List, [], ◌∷◌, includes, if◌then◌else◌,
}
use ascended_core.Core.Errors.{Thrown, core, blocked, js_error, other}
use ascended_core.Core.Result.{Result, ok, err}
use ascended_core.Notifications.Preferences.{
  NotificationChannel, in_app, email, push, NotificationRequest, sent, failed, skipped,
  DeliveryAttempt, NotificationPreferences,
}

-- `publish` takes the payload of `notification.requested`: the recipient and the template
pub record Ports (W : Type 0) : Type 0 where
  pub publish : String → String → W → Result (Unit {0}) Thrown × W
  pub preferences : String → W → Result NotificationPreferences Thrown × W
  pub deliver_in_app : NotificationRequest → W → Result (Unit {0}) Thrown × W
  pub deliver_email : NotificationRequest → W → Result (Unit {0}) Thrown × W
  pub deliver_push : NotificationRequest → W → Result (Unit {0}) Thrown × W
  pub now : W → String

all_channels : List NotificationChannel
all_channels = in_app ∷ email ∷ push ∷ []

-- `request.channels ?? ALL_CHANNELS`
unfoldable pub requested_channels : NotificationRequest → List NotificationChannel
unfolding all_channels
requested_channels request = elim request.channels [
  | none ↦ all_channels
  | some channels ↦ channels
]

-- `prefs.channels[channel] === false`
abbrev pub is_disabled : Option Bool → Bool
is_disabled (some false) = true
is_disabled _ = false

-- `error instanceof Error ? error.message : "sender failed"`
failure_text : Thrown → String
failure_text (core e) = e.message
failure_text (blocked e call) = e.message
failure_text (js_error message) = message
failure_text (other v) = "sender failed"

module _ {W : Type 0} (ports : Ports W) where
  abbrev skip : NotificationChannel → String → W → DeliveryAttempt × W
  skip channel reason w = (
    record {
      channel = channel;
      state = skipped;
      attempted_at = ports.now w;
      failure_reason = some reason;
    },
    w,
  )

  pub sender_for : NotificationChannel → NotificationRequest → W → Result (Unit {0}) Thrown × W
  sender_for in_app = ports.deliver_in_app
  sender_for email = ports.deliver_email
  sender_for push = ports.deliver_push

  -- what the `try` and the `catch` of `dispatch` make of a delivery
  after_delivery : NotificationChannel → Result (Unit {0}) Thrown → W → DeliveryAttempt × W
  unfolding failure_text
  after_delivery channel (ok _) w = (
    record { channel = channel; state = sent; attempted_at = ports.now w; failure_reason = none },
    w,
  )
  after_delivery channel (err e) w = (
    record {
      channel = channel;
      state = failed;
      attempted_at = ports.now w;
      failure_reason = some (failure_text e);
    },
    w,
  )

  pub dispatch : NotificationChannel → NotificationRequest → W → DeliveryAttempt × W
  unfolding sender_for after_delivery
  dispatch channel request w =
      let (r, w') = sender_for channel request w in after_delivery channel r w'

  -- one round of the loop
  pub attempt_channel :
      NotificationPreferences → NotificationRequest → NotificationChannel → W → DeliveryAttempt × W
  unfolding dispatch
  attempt_channel prefs request channel w =
      if includes request.template prefs.muted_templates
      then skip channel "template muted" w
      else if is_disabled (prefs.channels channel)
      then skip channel "channel disabled" w
      else dispatch channel request w

  pub attempt_channels :
      NotificationPreferences
      → NotificationRequest
      → List NotificationChannel
      → W
      → List DeliveryAttempt × W
  unfolding attempt_channel
  attempt_channels prefs request [] w = ([], w)
  attempt_channels prefs request (channel ∷ channels) w =
      let (attempt, w') = attempt_channel prefs request channel w in
      let (attempts, w'') = attempt_channels prefs request channels w' in (attempt ∷ attempts, w'')

  -- behind the look-up of the preferences
  abbrev after_preferences :
      NotificationRequest
      → Result NotificationPreferences Thrown × W
      → Result (List DeliveryAttempt) Thrown × W
  after_preferences request (err e, w) = (err e, w)
  after_preferences request (ok prefs, w) =
      let (attempts, w') = attempt_channels prefs request (requested_channels request) w in
      (ok attempts, w')

  -- behind the publication
  abbrev after_publish :
      NotificationRequest → Result (Unit {0}) Thrown × W → Result (List DeliveryAttempt) Thrown × W
  after_publish request (err e, w) = (err e, w)
  after_publish request (ok _, w) =
      after_preferences request (ports.preferences request.recipient_account_id w)

  pub notify : NotificationRequest → W → Result (List DeliveryAttempt) Thrown × W
  unfolding attempt_channels requested_channels
  notify request w =
      after_publish request (ports.publish request.recipient_account_id request.template w)
