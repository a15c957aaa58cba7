-- ===== src/Events/Envelope.antt =====
-- packages/events/src/envelope.ts and delivery.ts: events, delivery policies and dead letters.
use ascended_core.Base.{ℕ, String, Option}
use ascended_core.Core.Value.{Value}

pub record DomainEvent : Type 0 where
  pub id : String
  pub type : String
  pub version : ℕ
  pub occurred_at : String
  pub producer : String
  pub idempotency_key : String
  pub correlation_id : Option String
  pub causation_id : Option String
  pub payload : Value

pub record DeliveryPolicy : Type 0 where
  pub max_attempts : ℕ
  pub backoff_ms : ℕ

abbrev pub default_delivery_policy : DeliveryPolicy
default_delivery_policy = record { max_attempts = 2; backoff_ms = 0 }

pub record DeadLetterRecord : Type 0 where
  pub event : DomainEvent
  pub attempts : ℕ
  pub error : String
  pub dead_lettered_at : String
