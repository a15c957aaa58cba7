-- ===== src/Realtime/Webhooks.antt =====
-- packages/realtime/src/webhook-delivery.ts. The HMAC of Node's crypto module, the length of a text
-- in bytes, `timingSafeEqual` (`none` when it throws, which it does on buffers of two lengths) and
-- `JSON.stringify` are what `Platform` gives.
pub mod Laws
use ascended_core.Base.{
  ℕ, String, Bool, true, false, Option, none, some, List, [], ◌∷◌, ◌++◌, ◌==◌, if◌then◌else◌,
}
use ascended_core.Realtime.{DomainEvent}

pub record Platform : Type 0 where
  pub hmac_sha256_hex : String → String → String
  pub byte_length : String → ℕ
  pub timing_safe_equal : String → String → Option Bool
  pub stringify : DomainEvent → String

pub record WebhookEndpoint : Type 0 where
  pub url : String
  pub secret : String

pub record DeliveryAttempt : Type 0 where
  pub url : String
  pub is_ok : Bool
  pub status_code : Option ℕ
  pub signature : String
  pub attempted_at : String
  pub failure_reason : Option String

-- an entry of `attempts`
pub record RecordedDelivery : Type 0 where
  pub endpoint : WebhookEndpoint
  pub event : DomainEvent
  pub body : String

module _ (platform : Platform) where
  unfoldable pub sign_payload : String → String → String
  sign_payload secret payload = platform.hmac_sha256_hex secret payload

  pub verify_signature : String → String → String → Option Bool
  unfolding sign_payload
  verify_signature secret payload signature =
      let expected = sign_payload secret payload in
      if platform.byte_length expected == platform.byte_length signature
      then platform.timing_safe_equal expected signature
      else some false

  unfoldable pub serialize_event : DomainEvent → String
  serialize_event event = platform.stringify event

  -- `RecordingWebhookDelivery`, on its attempts so far and the time
  pub deliver :
      WebhookEndpoint
      → DomainEvent
      → String
      → List RecordedDelivery
      → DeliveryAttempt × List RecordedDelivery
  unfolding sign_payload serialize_event
  deliver endpoint event now attempts =
      let body = serialize_event event in
      (
        record {
          url = endpoint.url;
          is_ok = true;
          status_code = some 200;
          signature = sign_payload endpoint.secret body;
          attempted_at = now;
          failure_reason = none;
        },
        attempts ++ record { endpoint = endpoint; event = event; body = body } ∷ [],
      )
