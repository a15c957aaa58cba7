-- ===== src/Events/Bus/Delivery.antt =====
-- How often a handler is called, and what a delivery comes to.
use ascended_core.Base.{
  ℕ, zero, suc, ◌+◌, ◌<◌, String, ◌≡◌, ◌∙◌, inl, inr, refl, true, false, Option, none, some, List,
  [], ◌∷◌, arith, eq_refl, Option-cases, max,
}
use native.Mathlib.Nat.{add-zero, zero-add}
use ascended_core.Core.Errors.{Thrown, core, blocked, js_error, other}
use ascended_core.Core.Result.{Result, ok, err}
use ascended_core.Events.Envelope.{DomainEvent, DeadLetterRecord}
use ascended_core.Events.Bus.{
  Subscription, BusState, World, Action, BusOptions, find_object, add_seen, is_duplicate, mark_seen,
  to_dead_letter, after_handler, attempts_loop, deliver, deliver_all, publish, subscribers,
  error_text,
}

-- A key that was marked for an idempotent subscription is a duplicate from then on.
find-add_seen :
    (id : ℕ) (key : String) (ss : List Subscription) (s : Subscription)
    → find_object id ss ≡ some s
    → find_object id (add_seen id key ss) ≡ some (record s { seen = key ∷ s.seen })
unfolding find_object add_seen
find-add_seen id key [] s h = cc
find-add_seen id key (x ∷ ss) s h = ground (arith, find-add_seen id key ss s)

duplicate-mark_seen :
    (id : ℕ) (key : String) (bus : BusState) (s : Subscription)
    → find_object id bus.objects ≡ some s
    → s.idempotent ≡ true
    → is_duplicate id key (mark_seen id key bus) ≡ true
unfolding is_duplicate mark_seen
duplicate-mark_seen id key bus s h k =
    ground (arith, find-add_seen id key bus.objects s h, eq_refl key)

one_more : (made left : ℕ) → made + suc left ≡ made + 1 + left
one_more made left = omega arith

module _ {W : Type 0} (options : BusOptions W) (id : ℕ) (event : DomainEvent) where
  -- the world behind so many calls of the handler, and the error of the last
  abbrev pub after_calls : ℕ → World W → World W
  after_calls zero w = w
  after_calls (suc n) w = after_calls n (options.handler id event w).1

  abbrev error_of : Result (Unit {0}) Thrown → Option Thrown → Option Thrown
  error_of (ok _) error = error
  error_of (err e) error = some e

  abbrev pub last_error : ℕ → Option Thrown → World W → Option Thrown
  last_error zero error w = error
  last_error (suc n) error w =
      last_error n (error_of (options.handler id event w).0 error) (options.handler id event w).1

  -- what a dead-letter record says of a thrown value: the message of an `Error`, else its text
  abbrev pub thrown_text : Thrown → String
  thrown_text (core e) = e.message
  thrown_text (blocked e call) = e.message
  thrown_text (js_error message) = message
  thrown_text (other v) = options.text_of v

  thrown_text_lem : (e : Thrown) → error_text options.text_of (some e) ≡ thrown_text e
  thrown_text_lem (core e) = refl
  thrown_text_lem (blocked e call) = refl
  thrown_text_lem (js_error message) = refl
  thrown_text_lem (other v) = refl

  -- so many calls in a row fail
  abbrev pub FailsFor : ℕ → World W → Type 0
  FailsFor zero w = Unit
  FailsFor (suc n) w =
      ((e : Thrown) × ((options.handler id event w).0 ≡ err e))
      × FailsFor n (options.handler id event w).1

  -- the error of the last of some calls that fail
  last_failed :
      (n : ℕ) (error : Option Thrown) (w : World W)
      → 0 < n
      → FailsFor n w
      → (e : Thrown) × (last_error n error w ≡ some e)
  last_failed zero error w positive h = absurd (omega arith)
  last_failed (suc zero) error w positive ((e, failed), h) = (e, rw failed refl)
  last_failed (suc (suc n)) error w positive (now_failed, h) =
      last_failed (suc n) (error_of (options.handler id event w).0 error)
        (options.handler id event w).1 (omega arith) h

  captured :
      (capture : DeadLetterRecord → Action W) (n : ℕ) (e : Thrown) (error : Option Thrown)
      (w : World W)
      → options.sink ≡ some capture
      → error ≡ some e
      → to_dead_letter options event n error w
        ≡ capture
            (record {
              event = event;
              attempts = n;
              error = thrown_text e;
              dead_lettered_at = options.now w;
            })
            w
  unfolding to_dead_letter
  captured capture n e error w with_sink same = rw (with_sink, same, thrown_text_lem e) refl

  loop_exhausted :
      (left made : ℕ) (error : Option Thrown) (w : World W)
      → FailsFor left w
      → attempts_loop options left id event made error w
        ≡ to_dead_letter options event (made + left) (last_error left error w) (after_calls left w)
  unfolding attempts_loop
  loop_exhausted zero made error w h = rw add-zero
  loop_exhausted (suc left) made error w ((e, failed), h) = rw failed (
      rw (one_more made left)
        (loop_exhausted left (made + 1) (some e) (options.handler id event w).1 h))

  loop_succeeds :
      (i left made : ℕ) (error : Option Thrown) (w : World W)
      → i < left
      → FailsFor i w
      → (options.handler id event (after_calls i w)).0 ≡ ok tt
      → attempts_loop options left id event made error w ≡ (
        ok tt,
        record (after_calls (suc i) w) {
          bus = mark_seen id event.idempotency_key (after_calls (suc i) w).bus;
        },
      )
  unfolding attempts_loop
  loop_succeeds i zero made error w lt h done = absurd (omega arith)
  loop_succeeds zero (suc left) made error w lt h done = rw done
  loop_succeeds (suc i) (suc left) made error w lt ((e, failed), h) done =
      rw failed (
        loop_succeeds i left (made + 1) (some e) (options.handler id event w).1 (omega arith) h
          done)

  exhausted :
      (w : World W)
      → is_duplicate id event.idempotency_key w.bus ≡ false
      → FailsFor (max 1 options.policy.max_attempts) w
      → deliver options id event w
        ≡ to_dead_letter options event
            (max 1 options.policy.max_attempts)
            (last_error (max 1 options.policy.max_attempts) none w)
            (after_calls (max 1 options.policy.max_attempts) w)
  unfolding deliver
  exhausted w fresh h =
      rw fresh (rw (loop_exhausted (max 1 options.policy.max_attempts) 0 none w h) (rw zero-add))

  -- A delivery that is no duplicate, on a bus with a dead-letter sink, whose handler fails at every
  -- attempt calls it exactly as often as the policy allows, once at least, marks no key, and comes to
  -- what the sink makes of the event with that number of attempts and the text of the last error.
  pub deliver_exhausted :
      (capture : DeadLetterRecord → Action W) (w : World W)
      → options.sink ≡ some capture
      → is_duplicate id event.idempotency_key w.bus ≡ false
      → FailsFor (max 1 options.policy.max_attempts) w
      → let behind = after_calls (max 1 options.policy.max_attempts) w in
        (e : Thrown) × (last_error (max 1 options.policy.max_attempts) none w ≡ some e)
        × (deliver options id event w
            ≡ capture
                (record {
                  event = event;
                  attempts = max 1 options.policy.max_attempts;
                  error = thrown_text e;
                  dead_lettered_at = options.now behind;
                })
                behind)
  deliver_exhausted capture w with_sink fresh h =
      let attempts = max 1 options.policy.max_attempts in
      let (e, last_one) = last_failed attempts none w (omega arith) h in
      (
        e,
        last_one,
        exhausted w fresh h
            ∙ captured capture attempts e (last_error attempts none w) (after_calls attempts w)
                with_sink last_one,
      )

  -- A delivery that is no duplicate stops at the first attempt that succeeds, within those that the
  -- policy allows, and marks the key for an idempotent subscription.
  pub deliver_succeeds :
      (i : ℕ) (w : World W)
      → is_duplicate id event.idempotency_key w.bus ≡ false
      → i < max 1 options.policy.max_attempts
      → FailsFor i w
      → (options.handler id event (after_calls i w)).0 ≡ ok tt
      → deliver options id event w ≡ (
        ok tt,
        record (after_calls (suc i) w) {
          bus = mark_seen id event.idempotency_key (after_calls (suc i) w).bus;
        },
      )
  unfolding deliver
  deliver_succeeds i w fresh lt h done =
      rw fresh (loop_succeeds i (max 1 options.policy.max_attempts) 0 none w lt h done)

  -- Behind a success, a redelivery of the same event to the same idempotent subscription fulfils at
  -- once: it calls no handler and leaves the world as it is.
  pub redelivery_skipped :
      (i : ℕ) (w : World W) (s : Subscription)
      → is_duplicate id event.idempotency_key w.bus ≡ false
      → i < max 1 options.policy.max_attempts
      → FailsFor i w
      → (options.handler id event (after_calls i w)).0 ≡ ok tt
      → find_object id (after_calls (suc i) w).bus.objects ≡ some s
      → s.idempotent ≡ true
      → deliver options id event (deliver options id event w).1
        ≡ (ok tt, (deliver options id event w).1)
  redelivery_skipped i w s fresh lt h done there flag = rw (deliver_succeeds i w fresh lt h done) (
      unfold deliver in
      rw (duplicate-mark_seen id event.idempotency_key (after_calls (suc i) w).bus s there flag))

module _ {W : Type 0} (options : BusOptions W) where
  -- The sink, if there is one, never rejects.
  abbrev pub SinkAccepts : Type 0
  SinkAccepts =
      (capture : DeadLetterRecord → Action W)
      → options.sink ≡ some capture
      → (r : DeadLetterRecord) (w : World W) → (capture r w).0 ≡ ok tt

  -- the worlds that a fan-out goes through
  abbrev pub fan_out : List ℕ → DomainEvent → World W → World W
  fan_out [] event w = w
  fan_out (id ∷ ids) event w = fan_out ids event (deliver options id event w).1

  module _ (accepts : SinkAccepts) where
    dead_letter-ok :
        (event : DomainEvent) (n : ℕ) (e : Option Thrown) (w : World W)
        → (to_dead_letter options event n e w).0 ≡ ok tt
    unfolding to_dead_letter
    dead_letter-ok event n e w = elim (Option-cases options.sink) [
      | inl without ↦ rw without
      | inr (capture, with_sink) ↦ rw with_sink (accepts capture with_sink _ w)
    ]

    loop-ok :
        (left made id : ℕ) (event : DomainEvent) (e : Option Thrown) (w : World W)
        → (attempts_loop options left id event made e w).0 ≡ ok tt
    unfolding attempts_loop
    loop-ok zero made id event e w = dead_letter-ok event made e w
    loop-ok (suc left) made id event e w =
        after-ok (options.handler id event w).0 (options.handler id event w).1
          (λ err_ v. loop-ok left (made + 1) id event err_ v)
      where
        after-ok :
            (r : Result (Unit {0}) Thrown) (v : World W)
            → ((e : Option Thrown) (v : World W)
                → (attempts_loop options left id event (made + 1) e v).0 ≡ ok tt)
            → (after_handler options id event
                (attempts_loop options left id event (made + 1))
                r
                v).0
              ≡ ok tt
        after-ok (ok _) v h = refl
        after-ok (err e) v h = h (some e) v

    deliver-ok :
        (id : ℕ) (event : DomainEvent) (w : World W) → (deliver options id event w).0 ≡ ok tt
    unfolding deliver
    deliver-ok id event w =
        ground (arith, loop-ok (max 1 options.policy.max_attempts) 0 id event none w)

    deliver_all-fan_out :
        (ids : List ℕ) (event : DomainEvent) (w : World W)
        → deliver_all options ids event w ≡ (ok tt, fan_out ids event w)
    unfolding deliver_all
    deliver_all-fan_out [] event w = refl
    deliver_all-fan_out (id ∷ ids) event w =
        rw (deliver-ok id event w) (deliver_all-fan_out ids event (deliver options id event w).1)

    -- If the sink never rejects, a publication never rejects, whatever the handlers do: every
    -- subscriber of the snapshot is delivered to, in the order of subscription.
    pub publish_total :
        (event : DomainEvent) (w : World W)
        → publish options event w ≡ (ok tt, fan_out (subscribers event.type w.bus) event w)
    unfolding publish
    publish_total event w = deliver_all-fan_out (subscribers event.type w.bus) event w
