-- ===== src/Realtime/PubSub/Laws.antt =====
-- What unsubscribing does to the handlers of a topic.
use ascended_core.Base.{
  ℕ, ◌+◌, String, true, false, Option, none, some, List, [], ◌∷◌, any, ◌==◌, if◌then◌else◌, ◌≡◌,
  refl, sym, ap, subst, ◌∙◌, arith, Bool-cases, Option-cases, inl, inr,
}
use mathlib.Core.Option.{some-injective}
use ascended_core.Base.Dict
use ascended_core.Base.Dict.{Dict}
use ascended_core.Base.Dict.Laws.{get-set_same, get-delete_same}
use ascended_core.Realtime.PubSub.{
  Subscription, LocalPubSub, handlers_of, remove, subscribe, find_subscription, deactivate,
  put_or_drop, drop_handler, unsubscribe,
}

find-deactivate :
    (n : ℕ) (cs : List Subscription) (c : Subscription)
    → find_subscription n cs ≡ some c
    → find_subscription n (deactivate n cs) ≡ some (record c { is_active = false })
unfolding find_subscription deactivate
find-deactivate n [] c h = ground (arith, h)
find-deactivate n (d ∷ cs) c h = elim (Bool-cases (d.number == n)) [
  | inl same ↦ rw same (
      rw same (
        ap (λ (e : Subscription). some (record e { is_active = false }))
          (some-injective d c
            (sym (ap (λ b. if b then some d else find_subscription n cs) same) ∙ h))))
  | inr differ ↦ rw differ (
      rw differ (
        find-deactivate n cs c
          (sym (ap (λ b. if b then some d else find_subscription n cs) differ) ∙ h)))
]

-- the state behind a call of an unsubscribe function that is active
abbrev unsubscribed : ℕ → Subscription → LocalPubSub → LocalPubSub
unsubscribed n c s = record s {
  topics = drop_handler c.topic c.handler s.topics;
  subscriptions = deactivate n s.subscriptions;
}

unsubscribe_active :
    (n : ℕ) (s : LocalPubSub) (c : Subscription)
    → find_subscription n s.subscriptions ≡ some c
    → c.is_active ≡ true
    → unsubscribe n s ≡ unsubscribed n c s
unfolding unsubscribe
unsubscribe_active n s c found is_active = simp (found, unsubscribe, is_active)

unsubscribe_over :
    (n : ℕ) (s : LocalPubSub) (c : Subscription)
    → find_subscription n s.subscriptions ≡ some c
    → c.is_active ≡ false
    → unsubscribe n s ≡ s
unfolding unsubscribe
unsubscribe_over n s c found is_over = simp (found, unsubscribe, is_over)

unsubscribe_missing :
    (n : ℕ) (s : LocalPubSub) → find_subscription n s.subscriptions ≡ none → unsubscribe n s ≡ s
unfolding unsubscribe
unsubscribe_missing n s missing = simp (missing, unsubscribe)

-- Calling an unsubscribe function twice does what calling it once does.
pub unsubscribe-unsubscribe :
    (n : ℕ) (s : LocalPubSub) → unsubscribe n (unsubscribe n s) ≡ unsubscribe n s
unsubscribe-unsubscribe n s = elim (Option-cases (find_subscription n s.subscriptions)) [
  | inl missing ↦ ap (unsubscribe n) (unsubscribe_missing n s missing)
  | inr (c, found) ↦ elim (Bool-cases c.is_active) [
    | inl is_active ↦
        ap (unsubscribe n) (unsubscribe_active n s c found is_active)
        ∙ unsubscribe_over n (unsubscribed n c s) (record c { is_active = false })
            (find-deactivate n s.subscriptions c found) refl
        ∙ sym (unsubscribe_active n s c found is_active)
    | inr is_over ↦ ap (unsubscribe n) (unsubscribe_over n s c found is_over)
  ]
]

any-remove : (h : ℕ) (hs : List ℕ) → any (λ i. i == h) (remove h hs) ≡ false
unfolding remove
any-remove h [] = refl
any-remove h (i ∷ hs) = ground (arith, any-remove h hs)

handlers-put_or_drop :
    (topic : String) (hs : List ℕ) (s : LocalPubSub)
    → handlers_of topic (record s { topics = put_or_drop topic hs s.topics }) ≡ hs
unfolding handlers_of put_or_drop
handlers-put_or_drop topic [] s =
    ap (λ (o : Option (List ℕ)). elim o [ none ↦ [] | some is ↦ is ])
      (get-delete_same topic s.topics)
handlers-put_or_drop topic (h ∷ hs) s =
    ap (λ (o : Option (List ℕ)). elim o [ none ↦ [] | some is ↦ is ])
      (get-set_same topic (h ∷ hs) s.topics)

drop_handler_lem :
    (topic : String) (handler : ℕ) (hs : List ℕ) (topics : Dict (List ℕ))
    → Dict.get topic topics ≡ some hs
    → drop_handler topic handler topics ≡ put_or_drop topic (remove handler hs) topics
unfolding drop_handler
drop_handler_lem topic handler hs topics found = simp (found, drop_handler)

find_first :
    (n : ℕ) (c d : Subscription) (cs : List Subscription)
    → c.number ≡ n + 1
    → d.number ≡ n
    → find_subscription n (c ∷ d ∷ cs) ≡ some d
unfolding find_subscription
find_first n c d cs h k = ground (arith, h, k)

-- a topic whose handlers are known, without one of them
any-drop_handler :
    (topic : String) (handler : ℕ) (hs : List ℕ) (s : LocalPubSub)
    → Dict.get topic s.topics ≡ some hs
    → any
        (λ i. i == handler)
        (handlers_of topic (record s { topics = drop_handler topic handler s.topics }))
      ≡ false
any-drop_handler topic handler hs s found =
    ap (λ topics. any (λ i. i == handler) (handlers_of topic (record s { topics = topics })))
      (drop_handler_lem topic handler hs s.topics found)
    ∙ ap (any (λ i. i == handler)) (handlers-put_or_drop topic (remove handler hs) s)
    ∙ any-remove handler hs

find_other :
    (n : ℕ) (c d : Subscription) (cs : List Subscription)
    → c.number ≡ n + 1
    → d.number ≡ n
    → find_subscription n (deactivate (n + 1) (c ∷ d ∷ cs)) ≡ some d
unfolding find_subscription deactivate
find_other n c d cs h k = ground (arith, h, k)

find_kept :
    (n : ℕ) (c d : Subscription) (cs : List Subscription)
    → c.number ≡ n + 1
    → d.number ≡ n
    → find_subscription (n + 1) (deactivate n (c ∷ d ∷ cs)) ≡ some c
unfolding find_subscription deactivate
find_kept n c d cs h k = ground (arith, h, k)

find_second :
    (n : ℕ) (c d : Subscription) (cs : List Subscription)
    → c.number ≡ n
    → find_subscription n (c ∷ d ∷ cs) ≡ some c
unfolding find_subscription
find_second n c d cs h = ground (arith, h)

-- The handler is off the topic, and the subscription of that number is active.
abbrev pub IsSilenced : ℕ → String → ℕ → LocalPubSub → Type 0
IsSilenced n topic handler s =
    (any (λ i. i == handler) (handlers_of topic s) ≡ false)
    × ((c : Subscription) × (find_subscription n s.subscriptions ≡ some c) × (c.is_active ≡ true))

-- When one handler is subscribed to a topic twice, the first call of either unsubscribe function
-- takes the handler off the topic, although the other subscription is still active.
pub unsubscribe-subscribe_again :
    (topic : String) (handler : ℕ) (s : LocalPubSub)
    → let (first, once) = subscribe topic handler s in
      let (second, twice) = subscribe topic handler once in
      IsSilenced second topic handler (unsubscribe first twice)
      × IsSilenced first topic handler (unsubscribe second twice)
unfolding subscribe
unsubscribe-subscribe_again topic handler s =
    let (first, once) = subscribe topic handler s in
    let (second, twice) = subscribe topic handler once in
    let c : Subscription = record {
      number = s.next;
      topic = topic;
      handler = handler;
      is_active = true;
    } in
    let d : Subscription = record c { number = s.next + 1 } in
    let first_called =
      unsubscribe_active s.next twice c (find_first s.next d c s.subscriptions refl refl) refl in
    let second_called =
      unsubscribe_active (s.next + 1) twice d (find_second (s.next + 1) d c s.subscriptions refl)
        refl in
    (
      subst (IsSilenced (s.next + 1) topic handler) (sym first_called) (
        any-drop_handler topic handler _
            (record twice { subscriptions = deactivate s.next twice.subscriptions })
            (get-set_same topic _ once.topics),
        (d, find_kept s.next d c s.subscriptions refl refl, refl),
      ),
      subst (IsSilenced s.next topic handler) (sym second_called) (
        any-drop_handler topic handler _
            (record twice { subscriptions = deactivate (s.next + 1) twice.subscriptions })
            (get-set_same topic _ once.topics),
        (c, find_other s.next d c s.subscriptions refl refl, refl),
      ),
    )
