-- ===== src/Realtime.antt =====
-- packages/realtime/src/events.ts and what the local adapters share: the event bus they are given,
-- the ids and timestamps of core, which come from the world, and `emit`. A call that emits changes
-- the adapter's state before the bus is called, and rejects when the bus does.
pub mod Rooms
pub mod Calls
pub mod Presence
pub mod PubSub
pub mod Webhooks
use ascended_core.Base.{String, Option, none}
use ascended_core.Core.Value.{Value, object, Fields, Metadata}
use ascended_core.Core.Errors.{ErrorCode, Thrown, core, core_error}
use ascended_core.Core.Result.{Result, ok, err}

pub record DomainEvent : Type 0 where
  pub id : String
  pub type : String
  pub occurred_at : String
  pub payload : Value
  pub metadata : Option Metadata

-- `createId`, `nowIso` and the injected `EventBus`
pub record Services (W : Type 0) : Type 0 where
  pub create_id : String → W → String × W
  pub now_iso : W → String
  pub publish : DomainEvent → W → Result (Unit {0}) Thrown × W

-- the answer of a call, the adapter's state and the world behind it
abbrev pub Answer : Type 0 → Type 0 → Type 0 → Type 0
Answer A S W = Result A Thrown × S × W

module _ {W : Type 0} (services : Services W) where
  pub emit : String → Fields → W → Result (Unit {0}) Thrown × W
  emit type payload w =
      let (id, w') = services.create_id "evt" w in
      services.publish
        (record {
          id = id;
          type = type;
          occurred_at = services.now_iso w';
          payload = object payload;
          metadata = none;
        })
        w'

  -- `await this.emit(…); return value;` behind the change of the state
  abbrev pub emit_and_return : {A S : Type 0} → String → Fields → A → S → W → Answer A S W
  emit_and_return type payload value state w =
      let (sent, w') = emit type payload w in
      (elim sent [ ok _ ↦ ok value | err e ↦ err e ], state, w')

abbrev pub throw_error : {A S W : Type 0} → ErrorCode → String → S → W → Answer A S W
throw_error code message state w = (err (core (core_error code message)), state, w)
