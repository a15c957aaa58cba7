-- ===== src/Realtime/PubSub.antt =====
-- packages/realtime/src/pubsub.ts and local/pubsub.ts. A handler is named by a number, which stands
-- for the identity of the function; the functions that `subscribe` returns are objects with a flag,
-- named by numbers too. A handler acts on the world, this adapter included.
pub mod Laws
use ascended_core.Base.{
  ℕ, ◌+◌, String, Bool, true, false, not, Option, none, some, List, [], ◌∷◌, ◌++◌, any, filter,
  ◌==◌, if◌then◌else◌,
}
use ascended_core.Base.Dict
use ascended_core.Base.Dict.{Dict}
use ascended_core.Core.Value.{Value}
use ascended_core.Core.Errors.{Thrown}
use ascended_core.Core.Result.{Result, ok, err}

-- what the function that `subscribe` returned closes over
pub record Subscription : Type 0 where
  pub number : ℕ
  pub topic : String
  pub handler : ℕ
  pub is_active : Bool

pub record LocalPubSub : Type 0 where
  pub topics : Dict (List ℕ)
  pub subscriptions : List Subscription
  pub next : ℕ

pub record World (W : Type 0) : Type 0 where
  pub pubsub : LocalPubSub
  pub outside : W

abbrev pub empty_pubsub : LocalPubSub
empty_pubsub = record { topics = []; subscriptions = []; next = 0 }

unfoldable pub handlers_of : String → LocalPubSub → List ℕ
handlers_of topic s = elim (Dict.get topic s.topics) [ none ↦ [] | some hs ↦ hs ]

-- `Set.add`
pub add : ℕ → List ℕ → List ℕ
add h hs = if any (λ i. i == h) hs then hs else hs ++ h ∷ []

-- `Set.delete`
pub remove : ℕ → List ℕ → List ℕ
remove h = filter (λ i. not (i == h))

-- with the number of the function that is returned
pub subscribe : String → ℕ → LocalPubSub → ℕ × LocalPubSub
unfolding handlers_of add
subscribe topic handler s = (
  s.next,
  record {
    topics = Dict.set topic (add handler (handlers_of topic s)) s.topics;
    subscriptions =
        record { number = s.next; topic = topic; handler = handler; is_active = true }
        ∷ s.subscriptions;
    next = s.next + 1;
  },
)

unfoldable pub find_subscription : ℕ → List Subscription → Option Subscription
find_subscription n [] = none
find_subscription n (c ∷ cs) = if c.number == n then some c else find_subscription n cs

-- `active = false`
unfoldable pub deactivate : ℕ → List Subscription → List Subscription
deactivate n [] = []
deactivate n (c ∷ cs) =
    let rest = deactivate n cs in
    if c.number == n then record c { is_active = false } ∷ cs else c ∷ rest

-- `if (set.size === 0) this.topics.delete(topic)`
pub put_or_drop : String → List ℕ → Dict (List ℕ) → Dict (List ℕ)
put_or_drop topic [] topics = Dict.delete topic topics
put_or_drop topic (h ∷ hs) topics = Dict.set topic (h ∷ hs) topics

pub drop_handler : String → ℕ → Dict (List ℕ) → Dict (List ℕ)
unfolding remove put_or_drop
drop_handler topic handler topics = elim (Dict.get topic topics) [
  | none ↦ topics
  | some hs ↦ put_or_drop topic (remove handler hs) topics
]

-- a call of the function of that number
pub unsubscribe : ℕ → LocalPubSub → LocalPubSub
unfolding find_subscription deactivate drop_handler
unsubscribe n s = elim (find_subscription n s.subscriptions) [
  | none ↦ s
  | some c ↦
      if c.is_active
      then record s {
        topics = drop_handler c.topic c.handler s.topics;
        subscriptions = deactivate n s.subscriptions;
      }
      else s
]

module _ {W : Type 0}
    (handler : ℕ → Value → String → World W → Result (Unit {0}) Thrown × World W) where
  -- the fan-out over the snapshot: a handler that rejects ends it
  pub fan_out : List ℕ → Value → String → World W → Result (Unit {0}) Thrown × World W
  fan_out [] message topic w = (ok tt, w)
  fan_out (h ∷ hs) message topic w =
      let (r, w') = handler h message topic w in
      let rest = fan_out hs message topic w' in elim r [ ok _ ↦ rest | err e ↦ (err e, w') ]

  pub publish : String → Value → World W → Result (Unit {0}) Thrown × World W
  unfolding fan_out
  publish topic message w = fan_out (handlers_of topic w.pubsub) message topic w
