-- ===== src/Notifications/Service/Laws.antt =====
-- Which channels are served, and what a notification comes to.
use ascended_core.Base.{
  ◌≡◌, ◌↔◌, ◌⊎◌, ◌∙◌, inl, inr, refl, Bool, true, false, ◌||◌, Option, none, some, Option-cases,
  List, [], ◌∷◌, map, All, includes, arith,
}
use ascended_core.Core.Result.{Result, ok, err}
use ascended_core.Core.Errors.{Thrown}
use ascended_core.Notifications.Preferences.{
  NotificationChannel, in_app, email, push, NotificationRequest, skipped, DeliveryAttempt,
  NotificationPreferences,
}
use ascended_core.Notifications.Service.{
  Ports, is_disabled, requested_channels, sender_for, after_delivery, dispatch, attempt_channel,
  attempt_channels, notify,
}

-- The preferences mute the template, or list the channel as off.
abbrev pub IsWithheld : NotificationPreferences → NotificationRequest → NotificationChannel → Type 0
IsWithheld prefs request channel =
    (includes request.template prefs.muted_templates ≡ true) ⊎ (prefs.channels channel ≡ some false)

-- the channels of the request, or all three
abbrev pub wanted_channels : Option (List NotificationChannel) → List NotificationChannel
wanted_channels none = in_app ∷ email ∷ push ∷ []
wanted_channels (some channels) = channels

requested_channels_lem :
    (request : NotificationRequest) → requested_channels request ≡ wanted_channels request.channels
unfolding requested_channels
requested_channels_lem request = elim (Option-cases request.channels) [
  | inl default ↦ rw default refl
  | inr (channels, given) ↦ rw given refl
]

is_disabled-true : (setting : Option Bool) → (is_disabled setting ≡ true) ↔ (setting ≡ some false)
is_disabled-true setting = ground arith

abbrev is_withheld : NotificationPreferences → NotificationRequest → NotificationChannel → Bool
is_withheld prefs request channel =
    includes request.template prefs.muted_templates || is_disabled (prefs.channels channel)

module _ {W : Type 0} (ports : Ports W) (prefs : NotificationPreferences)
    (request : NotificationRequest) where
  abbrev pub IsHonoured : DeliveryAttempt → Type 0
  IsHonoured a = (a.state ≡ skipped) ↔ IsWithheld prefs request a.channel

  after_delivery_lem :
      (channel : NotificationChannel) (r : Result (Unit {0}) Thrown) (w : W)
      → ((after_delivery ports channel r w).0.channel ≡ channel)
        × ((after_delivery ports channel r w).0.state ≡ skipped → false ≡ true)
  unfolding after_delivery
  after_delivery_lem channel (ok _) w = (refl, λ e. ground arith)
  after_delivery_lem channel (err e) w = (refl, λ e. ground arith)

  attempt_channel_lem :
      (channel : NotificationChannel) (w : W)
      → ((attempt_channel ports prefs request channel w).0.channel ≡ channel)
        × ((((attempt_channel ports prefs request channel w).0.state ≡ skipped)
            ↔ IsWithheld prefs request channel))
  unfolding attempt_channel dispatch
  attempt_channel_lem channel w =
      let (r, w') = sender_for ports channel request w in
      ground (arith, after_delivery_lem channel r w', is_disabled-true (prefs.channels channel))

  attempt_channels_lem :
      (channels : List NotificationChannel) (w : W)
      → (map (λ a. a.channel) (attempt_channels ports prefs request channels w).0 ≡ channels)
        × All IsHonoured (attempt_channels ports prefs request channels w).0
  unfolding attempt_channels
  attempt_channels_lem [] w = (refl, tt)
  attempt_channels_lem (channel ∷ channels) w =
      let (attempt, w') = attempt_channel ports prefs request channel w in
      let (same, honoured) = attempt_channel_lem channel w in
      let (rest, all) = attempt_channels_lem channels w' in
      (cc (same, rest), (rw same honoured, all))

  withheld :
      (channel : NotificationChannel) (w : W)
      → is_withheld prefs request channel ≡ true
      → (attempt_channel ports prefs request channel w).1 ≡ w
  unfolding attempt_channel
  withheld channel w h = ground (arith, h)

  attempts_of_withheld :
      (channels : List NotificationChannel) (w : W)
      → All (λ channel. is_withheld prefs request channel ≡ true) channels
      → (attempt_channels ports prefs request channels w).1 ≡ w
  unfolding attempt_channels
  attempts_of_withheld [] w h = refl
  attempts_of_withheld (channel ∷ channels) w (k, h) =
      rw (withheld channel w k) (attempts_of_withheld channels w h)

  module _ (w published found : W)
      (announced : ports.publish request.recipient_account_id request.template w
        ≡ (ok tt, published))
      (looked_up : ports.preferences request.recipient_account_id published
        ≡ (ok prefs, found)) where
    -- If the announcement and the look-up of the preferences succeed, a notification comes to one
    -- attempt for each channel of the request, or for the inbox, the e-mail and the push if it lists
    -- none, in that order and whatever the senders do; an attempt is skipped exactly when the
    -- preferences mute the template or list its channel as off.
    pub notify_lem :
        (attempts : List DeliveryAttempt) × ((notify ports request w).0 ≡ ok attempts)
        × (map (λ a. a.channel) attempts ≡ wanted_channels request.channels)
        × All IsHonoured attempts
    unfolding notify
    notify_lem =
        let (listed, honoured) = attempt_channels_lem (requested_channels request) found in
        (
          (attempt_channels ports prefs request (requested_channels request) found).0,
          rw (announced, looked_up) refl,
          listed ∙ requested_channels_lem request,
          honoured,
        )

    -- If the preferences keep every requested channel from the recipient, no sender is called: the
    -- world is the one behind the look-up of the preferences.
    pub notify_withheld :
        All (λ channel. is_withheld prefs request channel ≡ true) (requested_channels request)
        → (notify ports request w).1 ≡ found
    unfolding notify
    notify_withheld h =
        rw (announced, looked_up) (attempts_of_withheld (requested_channels request) found h)
