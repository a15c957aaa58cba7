-- ===== src/Tests/Events.antt =====
-- The event bus at concrete inputs. The world outside the bus counts the calls of the handlers.
use ascended_core.Base.{
  ℕ, ◌+◌, ◌≡◌, refl, true, none, some, [], ◌∷◌, ◌++◌, arith, str_eq, leb, if◌then◌else◌,
}
use ascended_core.Base.Dict
use ascended_core.Core.Value.{null}
use ascended_core.Core.Errors.{Thrown, js_error}
use ascended_core.Core.Result.{ok, err}
use ascended_core.Events.Envelope.{DomainEvent, DeadLetterRecord, default_delivery_policy}
use ascended_core.Events.Bus.{
  BusState, World, Action, BusOptions, empty_bus, subscribers, subscribe, unsubscribe, without,
  is_duplicate, deliver, publish,
}
use ascended_core.Events.Bus.Delivery.{
  after_calls, last_error, thrown_text, deliver_exhausted, redelivery_skipped, SinkAccepts, fan_out,
  publish_total,
}
use ascended_core.Events.Bus.Subscriptions.{IsFresh, subscribers-subscribe, subscribers-unsubscribe}

abbrev created : DomainEvent
created = record {
  id = "evt_1";
  type = "user.created";
  version = 1;
  occurred_at = "t";
  producer = "users";
  idempotency_key = "k1";
  correlation_id = none;
  causation_id = none;
  payload = null;
}

abbrev one_subscriber : BusState
one_subscriber = record {
  subscriptions = ("user.created", 0 ∷ []) ∷ [];
  objects = record { id = 0; idempotent = true; seen = [] } ∷ [];
  next_id = 1;
}

abbrev start : World ℕ
start = record { bus = one_subscriber; outside = 0 }

-- fails once, and succeeds from then on
abbrev fails_once : ℕ → DomainEvent → Action ℕ
fails_once id event w = (
  if leb 1 w.outside then ok tt else err (js_error "later"),
  record w { outside = w.outside + 1 },
)

abbrev fails_always : ℕ → DomainEvent → Action ℕ
fails_always id event w = (err (js_error "never"), record w { outside = w.outside + 1 })

abbrev options_with : (ℕ → DomainEvent → Action ℕ) → BusOptions ℕ
options_with handler = record {
  handler = handler;
  policy = default_delivery_policy;
  sink = none;
  text_of = λ v. "undefined";
  now = λ w. "t";
}

-- a sink that writes the number of attempts into the world
abbrev count_attempts : DeadLetterRecord → Action ℕ
count_attempts r w = (ok tt, record w { outside = 100 + r.attempts })

abbrev options_with_sink : BusOptions ℕ
options_with_sink = record (options_with fails_always) { sink = some count_attempts }

deliver_exhausted_example :
    let behind = after_calls options_with_sink 0 created 2 start in
    (e : Thrown) × (last_error options_with_sink 0 created 2 none start ≡ some e)
    × (deliver options_with_sink 0 created start
        ≡ count_attempts
            (record {
              event = created;
              attempts = 2;
              error = thrown_text options_with_sink 0 created e;
              dead_lettered_at = "t";
            })
            behind)
unfolding is_duplicate
deliver_exhausted_example =
    deliver_exhausted options_with_sink 0 created count_attempts start refl refl
      ((js_error "never", refl), ((js_error "never", refl), tt))

redelivery_skipped_example :
    deliver
      (options_with fails_once)
      0
      created
      (deliver (options_with fails_once) 0 created start).1
    ≡ (ok tt, (deliver (options_with fails_once) 0 created start).1)
unfolding is_duplicate
redelivery_skipped_example =
    redelivery_skipped (options_with fails_once) 0 created 1 start
      (record { id = 0; idempotent = true; seen = [] }) refl (omega arith)
      ((js_error "later", refl), tt) refl refl refl

no_sink : SinkAccepts (options_with fails_always)
no_sink capture e = ground (arith, e)

publish_total_example : publish (options_with fails_always) created start ≡ (
  ok tt,
  fan_out (options_with fails_always) (subscribers "user.created" one_subscriber) created start,
)
publish_total_example = publish_total (options_with fails_always) no_sink created start

subscribers-unsubscribe_example :
    subscribers "user.created" (unsubscribe "user.created" 0 one_subscriber) ≡ (
      if str_eq "user.created" "user.created"
      then without 0 (subscribers "user.created" one_subscriber)
      else subscribers "user.created" one_subscriber)
subscribers-unsubscribe_example =
    subscribers-unsubscribe "user.created" "user.created" 0 one_subscriber

subscribers-subscribe_example :
    subscribers "user.created" (subscribe "user.created" none one_subscriber).1 ≡ (
      if str_eq "user.created" "user.created"
      then subscribers "user.created" one_subscriber ++ 1 ∷ []
      else subscribers "user.created" one_subscriber)
subscribers-subscribe_example =
    subscribers-subscribe "user.created" "user.created" none one_subscriber

empty-IsFresh : IsFresh empty_bus
unfolding subscribers Dict.get
empty-IsFresh type = tt
