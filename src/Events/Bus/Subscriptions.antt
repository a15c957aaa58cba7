-- ===== src/Events/Bus/Subscriptions.antt =====
-- Subscribing and unsubscribing.
use ascended_core.Base.{
  ℕ, ◌+◌, ◌<◌, ◌≤◌, String, ◌≡◌, inl, inr, refl, Bool, Option, List, [], ◌∷◌, ◌++◌, arith, str_eq,
  eq_iff, if◌then◌else◌, All, Option-cases, Bool-cases, ap, All-append,
}
use ascended_core.Base.Dict
use ascended_core.Base.Dict.{Dict, get-set, get-delete, dict_laws}
use ascended_core.Events.Bus.{BusState, subscribers, subscribe, unsubscribe, without, put_or_drop}

-- the numbers of a set are older than the next one
abbrev pub AreBelow : ℕ → List ℕ → Type 0
AreBelow n ids = All (λ i. i < n) ids

without_above : (n : ℕ) (ids : List ℕ) → AreBelow n ids → without n (ids ++ n ∷ []) ≡ ids
unfolding without
without_above n [] h = ground arith
without_above n (i ∷ ids) (lt, h) = ground (arith, without_above n ids h)

subscribers-put_or_drop :
    (type other : String) (ids : List ℕ) (subs : Dict (List ℕ)) (bus : BusState)
    → subscribers other (record bus { subscriptions = put_or_drop type ids subs })
      ≡ (if str_eq type other then ids else subscribers other (record bus { subscriptions = subs }))
unfolding subscribers put_or_drop
subscribers-put_or_drop type other [] subs bus = ground (arith, get-delete type other subs)
subscribers-put_or_drop type other (i ∷ ids) subs bus =
    ground (arith, get-set type other (i ∷ ids) subs)

-- A subscription puts its number behind the subscribers of its own type, and no other type changes.
pub subscribers-subscribe :
    (type other : String) (idempotent : Option Bool) (bus : BusState)
    → subscribers other (subscribe type idempotent bus).1 ≡ (
        if str_eq type other
        then subscribers type bus ++ bus.next_id ∷ []
        else subscribers other bus)
unfolding subscribe
subscribers-subscribe type other idempotent bus =
    ground (arith, get-set type other (subscribers type bus ++ bus.next_id ∷ []) bus.subscriptions)

next-subscribe :
    (type : String) (idempotent : Option Bool) (bus : BusState)
    → (subscribe type idempotent bus).0 ≡ bus.next_id
unfolding subscribe
next-subscribe type idempotent bus = refl

-- Unsubscribing takes the number out of the subscribers of its type, and no other type changes.
pub subscribers-unsubscribe :
    (type other : String) (id : ℕ) (bus : BusState)
    → subscribers other (unsubscribe type id bus)
      ≡ (if str_eq type other then without id (subscribers other bus) else subscribers other bus)
unfolding unsubscribe subscribers without
subscribers-unsubscribe type other id bus = elim (Option-cases (Dict.get type bus.subscriptions)) [
  | inl missing ↦ ground (arith, eq_iff type other)
  | inr (ids, found) ↦ ground (
    arith,
    eq_iff type other,
    subscribers-put_or_drop type other (without id ids) bus.subscriptions bus,
  )
]

-- Unsubscribing right behind a subscription gives back the subscribers of every event type as they
-- were, in their order.
pub unsubscribe-subscribe :
    (type other : String) (idempotent : Option Bool) (bus : BusState)
    → AreBelow bus.next_id (subscribers type bus)
    → subscribers other
        (unsubscribe type (subscribe type idempotent bus).0 (subscribe type idempotent bus).1)
      ≡ subscribers other bus
unsubscribe-subscribe type other idempotent bus below =
    rw (subscribers-unsubscribe, subscribers-subscribe)
      (elim (Bool-cases (str_eq type other)) [
        | inl same ↦
            rw (same, next-subscribe, without_above bus.next_id (subscribers type bus) below)
              (ap (λ t. subscribers t bus) ((eq_iff type other).0 same))
        | inr differ ↦ rw differ
      ])

-- every number in a set is older than the next one
abbrev pub IsFresh : BusState → Type 0
IsFresh bus = (type : String) → AreBelow bus.next_id (subscribers type bus)

below_mono : (m n : ℕ) (ids : List ℕ) → m ≤ n → AreBelow m ids → AreBelow n ids
below_mono m n [] h b = tt
below_mono m n (i ∷ ids) h (lt, b) = (omega arith, below_mono m n ids h b)

below-without : (n id : ℕ) (ids : List ℕ) → AreBelow n ids → AreBelow n (without id ids)
unfolding without
below-without n id [] b = tt
below-without n id (i ∷ ids) (lt, b) = ground (arith, below-without n id ids b)

count-subscribe :
    (type : String) (idempotent : Option Bool) (bus : BusState)
    → (subscribe type idempotent bus).1.next_id ≡ bus.next_id + 1
unfolding subscribe
count-subscribe type idempotent bus = refl

count-unsubscribe :
    (type : String) (id : ℕ) (bus : BusState) → (unsubscribe type id bus).next_id ≡ bus.next_id
unfolding unsubscribe
count-unsubscribe type id bus = ground arith

-- Subscribing and unsubscribing keep every subscription number older than the next one, so that a
-- new subscription never takes the number of another.
pub subscriptions-IsFresh :
    (type : String) (idempotent : Option Bool) (id : ℕ) (bus : BusState)
    → IsFresh bus
    → IsFresh (subscribe type idempotent bus).1 × IsFresh (unsubscribe type id bus)
subscriptions-IsFresh type idempotent id bus h = (
  λ other.
      rw (count-subscribe, subscribers-subscribe)
        (elim (Bool-cases (str_eq type other)) [
          | inl same ↦ rw same (
              All-append (λ i. i < bus.next_id + 1) (subscribers type bus) (bus.next_id ∷ [])
                (below_mono bus.next_id (bus.next_id + 1) _ (omega arith) (h type)) (omega arith))
          | inr differ ↦
              rw differ (below_mono bus.next_id (bus.next_id + 1) _ (omega arith) (h other))
        ]),
  λ other.
      rw (subscribers-unsubscribe, count-unsubscribe)
        (elim (Bool-cases (str_eq type other)) [
          | inl same ↦ rw same (below-without bus.next_id id _ (h other))
          | inr differ ↦ rw differ (h other)
        ]),
)
