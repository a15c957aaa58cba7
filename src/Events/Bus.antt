-- ===== src/Events/Bus.antt =====
-- packages/events/src/in-memory-bus.ts. A subscription is an object that the bus and a running
-- fan-out share: it is named by a number, and the bus holds the objects. A handler is named by its
-- subscription, and acts on the whole world, bus included, so that it may publish, subscribe and
-- unsubscribe; its promise is taken to settle.
pub mod Delivery
pub mod Subscriptions
use ascended_core.Base.{
  ℕ, zero, suc, ◌+◌, String, Bool, true, false, not, ◌&&◌, Option, none, some, List, [], ◌∷◌, ◌++◌,
  map, filter, length, includes, ◌==◌, if◌then◌else◌, max,
}
use ascended_core.Base.Dict
use ascended_core.Base.Dict.{Dict}
use ascended_core.Core.Value.{Value, undefined}
use ascended_core.Core.Errors.{Thrown, core, blocked, js_error, other}
use ascended_core.Core.Result.{Result, ok, err}
use ascended_core.Events.Envelope.{DomainEvent, DeliveryPolicy, DeadLetterRecord}

-- its `handler` is the one of its number
pub record Subscription : Type 0 where
  pub id : ℕ
  pub idempotent : Bool
  pub seen : List String

pub record BusState : Type 0 where
  -- the sets of subscriptions, by event type
  pub subscriptions : Dict (List ℕ)
  -- the subscription objects that were ever made
  pub objects : List Subscription
  pub next_id : ℕ

pub record World (W : Type 0) : Type 0 where
  pub bus : BusState
  pub outside : W

abbrev pub Action : Type 0 → Type 0
Action W = World W → Result (Unit {0}) Thrown × World W

-- What the bus is given: the handlers, the policy, the sink if there is one, the text of a
-- thrown value that is no `Error`, and the clock.
pub record BusOptions (W : Type 0) : Type 0 where
  pub handler : ℕ → DomainEvent → Action W
  pub policy : DeliveryPolicy
  pub sink : Option (DeadLetterRecord → Action W)
  pub text_of : Value → String
  pub now : World W → String

abbrev pub empty_bus : BusState
empty_bus = record { subscriptions = []; objects = []; next_id = 0 }

unfoldable pub subscribers : String → BusState → List ℕ
subscribers type bus = elim (Dict.get type bus.subscriptions) [ none ↦ [] | some ids ↦ ids ]

-- `subscribe`, with the number of the subscription that the returned function removes
pub subscribe : String → Option Bool → BusState → ℕ × BusState
unfolding subscribers
subscribe type idempotent bus = (
  bus.next_id,
  record {
    subscriptions = Dict.set type (subscribers type bus ++ bus.next_id ∷ []) bus.subscriptions;
    objects =
        record {
          id = bus.next_id;
          idempotent = elim idempotent [ none ↦ true | some b ↦ b ];
          seen = [];
        }
        ∷ bus.objects;
    next_id = bus.next_id + 1;
  },
)

-- `current.delete(subscription)`
pub without : ℕ → List ℕ → List ℕ
without id = filter (λ i. not (i == id))

-- `if (current && current.size === 0) this.subscriptions.delete(type)`
pub put_or_drop : String → List ℕ → Dict (List ℕ) → Dict (List ℕ)
put_or_drop type [] subs = Dict.delete type subs
put_or_drop type (i ∷ ids) subs = Dict.set type (i ∷ ids) subs

-- the function that `subscribe` returns
pub unsubscribe : String → ℕ → BusState → BusState
unfolding without put_or_drop
unsubscribe type id bus = elim (Dict.get type bus.subscriptions) [
  | none ↦ bus
  | some ids ↦ record bus { subscriptions = put_or_drop type (without id ids) bus.subscriptions }
]

pub find_object : ℕ → List Subscription → Option Subscription
find_object id [] = none
find_object id (s ∷ ss) = if s.id == id then some s else find_object id ss

-- `subscription.seen.add(key)`
pub add_seen : ℕ → String → List Subscription → List Subscription
add_seen id key [] = []
add_seen id key (s ∷ ss) =
    if s.id == id then record s { seen = key ∷ s.seen } ∷ ss else s ∷ add_seen id key ss

-- `subscription.idempotent && subscription.seen.has(key)`
unfoldable pub is_duplicate : ℕ → String → BusState → Bool
unfolding find_object
is_duplicate id key bus = elim (find_object id bus.objects) [
  | none ↦ false
  | some s ↦ s.idempotent && includes key s.seen
]

-- `if (subscription.idempotent) subscription.seen.add(key)`
pub mark_seen : ℕ → String → BusState → BusState
unfolding find_object add_seen
mark_seen id key bus = elim (find_object id bus.objects) [
  | none ↦ bus
  | some s ↦ if s.idempotent then record bus { objects = add_seen id key bus.objects } else bus
]

-- `error instanceof Error ? error.message : String(error)`
abbrev pub error_text : (Value → String) → Option Thrown → String
error_text text_of none = text_of undefined
error_text text_of (some (core e)) = e.message
error_text text_of (some (blocked e call)) = e.message
error_text text_of (some (js_error message)) = message
error_text text_of (some (other v)) = text_of v

module _ {W : Type 0} (options : BusOptions W) where
  pub to_dead_letter : DomainEvent → ℕ → Option Thrown → Action W
  to_dead_letter event attempts error w = elim options.sink [
    | none ↦ (ok tt, w)
    | some capture ↦
        capture
          (record {
            event = event;
            attempts = attempts;
            error = error_text options.text_of error;
            dead_lettered_at = options.now w;
          })
          w
  ]

  -- behind one call of the handler
  abbrev pub after_handler :
      ℕ → DomainEvent → (Option Thrown → Action W) → Result (Unit {0}) Thrown → Action W
  after_handler id event again (ok _) w =
      (ok tt, record w { bus = mark_seen id event.idempotency_key w.bus })
  after_handler id event again (err e) w = again (some e) w

  -- the attempts that are left, and those that were made
  pub attempts_loop : ℕ → ℕ → DomainEvent → ℕ → Option Thrown → Action W
  attempts_loop zero id event made error w = to_dead_letter event made error w
  attempts_loop (suc left) id event made error w =
      let (r, w') = options.handler id event w in
      after_handler id event (attempts_loop left id event (made + 1)) r w'

  -- `Math.max(1, this.policy.maxAttempts)`
  pub max_attempts : ℕ
  max_attempts = max 1 options.policy.max_attempts

  pub deliver : ℕ → DomainEvent → Action W
  unfolding is_duplicate attempts_loop max_attempts
  deliver id event w =
      if is_duplicate id event.idempotency_key w.bus
      then (ok tt, w)
      else attempts_loop max_attempts id event 0 none w

  -- go on only behind a promise that fulfils
  abbrev and_then :
      Result (Unit {0}) Thrown → World W → Action W → Result (Unit {0}) Thrown × World W
  and_then (ok _) w next = next w
  and_then (err e) w next = (err e, w)

  -- the fan-out over a snapshot
  pub deliver_all : List ℕ → DomainEvent → Action W
  unfolding deliver
  deliver_all [] event w = (ok tt, w)
  deliver_all (id ∷ ids) event w =
      let (r, w') = deliver id event w in and_then r w' (deliver_all ids event)

  pub publish : DomainEvent → Action W
  unfolding deliver_all
  publish event w = deliver_all (subscribers event.type w.bus) event w

  publish_batch : List DomainEvent → Action W
  unfolding publish
  publish_batch [] w = (ok tt, w)
  publish_batch (event ∷ events) w =
      let (r, w') = publish event w in and_then r w' (publish_batch events)
