-- ===== src/Notifications/Reminders/Laws.antt =====
-- Which reminders a drain takes, and in which order.
use ascended_core.Base.{
  ℕ, ◌≤◌, String, ◌≡◌, refl, sym, ap, ◌∙◌, Bool, false, ◌||◌, ◌&&◌, Option, none, some, List, [],
  ◌∷◌, any, filter, All, leb, leb→le, str_eq, if◌then◌else◌, Bool-cases, inl, inr, arith, eq_iff,
  subst,
}
use ascended_core.Base.Dict
use ascended_core.Base.Dict.{get-delete}
use ascended_core.Base.Dict.Laws.{IsMap}
use ascended_core.Notifications.Reminders.{
  ScheduledReminder, Reminders, insert_reminder, sort_reminders, due, delete_all, drain_due,
}

-- no later reminder is due before an earlier one
pub IsInOrder : List ScheduledReminder → Type 0
IsInOrder [] = Unit
IsInOrder (r ∷ rs) = All (λ s. r.fire_at ≤ s.fire_at) rs × IsInOrder rs

All-insert :
    (P : ScheduledReminder → Type 0) (r : ScheduledReminder) (rs : List ScheduledReminder)
    → P r
    → All P rs
    → All P (insert_reminder r rs)
unfolding insert_reminder
All-insert P r [] p ps = (p, tt)
All-insert P r (s ∷ ss) p ps = elim (Bool-cases (leb r.fire_at s.fire_at)) [
  | inl before ↦ rw before (p, ps)
  | inr behind ↦ rw behind (ps.0, All-insert P r ss p ps.1)
]

All-later :
    (m n : ℕ) (rs : List ScheduledReminder)
    → m ≤ n
    → All (λ s. n ≤ s.fire_at) rs
    → All (λ s. m ≤ s.fire_at) rs
All-later m n [] le all = tt
All-later m n (r ∷ rs) le all = (omega (arith, le, all.0), All-later m n rs le all.1)

insert-IsInOrder :
    (r : ScheduledReminder) (rs : List ScheduledReminder)
    → IsInOrder rs
    → IsInOrder (insert_reminder r rs)
unfolding IsInOrder insert_reminder
insert-IsInOrder r [] ordered = (tt, tt)
insert-IsInOrder r (s ∷ ss) ordered = elim (Bool-cases (leb r.fire_at s.fire_at)) [
  | inl before ↦
      rw before (
        (leb→le _ _ before, All-later r.fire_at s.fire_at ss (leb→le _ _ before) ordered.0),
        ordered,
      )
  | inr behind ↦
      rw behind
        (All-insert _ r ss (ground (arith, behind)) ordered.0, insert-IsInOrder r ss ordered.1)
]

sort-IsInOrder : (rs : List ScheduledReminder) → IsInOrder (sort_reminders rs)
unfolding sort_reminders IsInOrder
sort-IsInOrder [] = tt
sort-IsInOrder (r ∷ rs) = insert-IsInOrder r (sort_reminders rs) (sort-IsInOrder rs)

abbrev pub has_id : String → List ScheduledReminder → Bool
has_id id rs = any (λ (r : ScheduledReminder). str_eq r.id id) rs

has_id-insert :
    (id : String) (r : ScheduledReminder) (rs : List ScheduledReminder)
    → has_id id (insert_reminder r rs) ≡ (str_eq r.id id || has_id id rs)
unfolding insert_reminder
has_id-insert id r [] = refl
has_id-insert id r (s ∷ ss) = elim (Bool-cases (leb r.fire_at s.fire_at)) [
  | inl before ↦ rw before refl
  | inr behind ↦ rw behind (ground (arith, has_id-insert id r ss))
]

has_id-sort :
    (id : String) (rs : List ScheduledReminder) → has_id id (sort_reminders rs) ≡ has_id id rs
unfolding sort_reminders
has_id-sort id [] = refl
has_id-sort id (r ∷ rs) =
    has_id-insert id r (sort_reminders rs) ∙ ap (λ b. str_eq r.id id || b) (has_id-sort id rs)

twice :
    (b c : Bool) (o : Option ScheduledReminder)
    → (if b then none else (if c then none else o)) ≡ (if c || b then none else o)
twice b c o = ground arith

get-delete_all :
    (id : String) (rs : List ScheduledReminder) (m : Reminders)
    → Dict.get id (delete_all rs m) ≡ (if has_id id rs then none else Dict.get id m)
unfolding delete_all
get-delete_all id [] m = refl
get-delete_all id (r ∷ rs) m =
    get-delete_all id rs (Dict.delete r.id m)
    ∙ ap (λ (o : Option ScheduledReminder). if has_id id rs then none else o) (get-delete r.id id m)
    ∙ twice (has_id id rs) (str_eq r.id id) (Dict.get id m)

-- the reminders stand under their own ids, as `schedule_reminder` stores them
unfoldable pub IsKeyed : Reminders → Type 0
IsKeyed [] = Unit
IsKeyed ((k, r) ∷ m) = (k ≡ r.id) × IsKeyed m

abbrev pub is_due : ℕ → Option ScheduledReminder → Bool
is_due now none = false
is_due now (some r) = leb r.fire_at now

has_id_cons :
    (now : ℕ) (id : String) (r : ScheduledReminder) (rs : List ScheduledReminder)
    → has_id id (filter (λ s. leb s.fire_at now) (r ∷ rs))
      ≡ (str_eq r.id id && leb r.fire_at now || has_id id (filter (λ s. leb s.fire_at now) rs))
has_id_cons now id r rs = elim (Bool-cases (leb r.fire_at now)) [
  | inl fires ↦ rw fires (ground arith)
  | inr waits ↦ rw waits (ground arith)
]

not_there :
    (now : ℕ) (id : String) (m : Reminders)
    → IsKeyed m
    → Dict.get id m ≡ none
    → has_id id (filter (λ r. leb r.fire_at now) (Dict.values m)) ≡ false
unfolding IsKeyed Dict.get Dict.values
not_there now id [] keyed h = refl
not_there now id ((k, r) ∷ m) keyed h =
    let other : str_eq k id ≡ false = ground (arith, h) in
    let rest : Dict.get id m ≡ none = ground (arith, h) in
    has_id_cons now id r (Dict.values m)
    ∙ (rw (sym (ap (λ i. str_eq i id) keyed.0) ∙ other, not_there now id m keyed.1 rest) refl)

has_id-due :
    (now : ℕ) (id : String) (m : Reminders)
    → IsMap m
    → IsKeyed m
    → has_id id (filter (λ r. leb r.fire_at now) (Dict.values m)) ≡ is_due now (Dict.get id m)
unfolding IsMap IsKeyed Dict.get Dict.values
has_id-due now id [] distinct keyed = refl
has_id-due now id ((k, r) ∷ m) distinct keyed =
    has_id_cons now id r (Dict.values m)
    ∙ ap
        (λ b. b && leb r.fire_at now || has_id id (filter (λ s. leb s.fire_at now) (Dict.values m)))
        (ap (λ i. str_eq i id) (sym keyed.0))
    ∙ (elim (Bool-cases (str_eq k id)) [
      | inl same ↦ rw same (
          rw
            (subst (λ i. has_id i (filter (λ s. leb s.fire_at now) (Dict.values m)) ≡ false)
              ((eq_iff k id).0 same) (not_there now k m keyed.1 distinct.0))
            (ground arith))
      | inr differ ↦ rw differ (has_id-due now id m distinct.1 keyed.1)
    ])

-- A drain takes the reminders that are due and no others, the earliest first: in a queue whose
-- reminders stand under their own ids, a reminder is among those it returns exactly when it is due,
-- it is then gone, and the others stay.
pub drain_due_lem :
    (now : ℕ) (id : String) (m : Reminders)
    → IsMap m
    → IsKeyed m
    → let (taken, left) = drain_due now m in
      IsInOrder taken
      × (has_id id taken ≡ is_due now (Dict.get id m))
      × (Dict.get id left ≡ (if is_due now (Dict.get id m) then none else Dict.get id m))
unfolding drain_due due
drain_due_lem now id m distinct keyed =
    let taken_ids : has_id id (due now m) ≡ is_due now (Dict.get id m) =
      has_id-sort id (filter (λ r. leb r.fire_at now) (Dict.values m))
      ∙ has_id-due now id m distinct keyed in
    (
      sort-IsInOrder (filter (λ r. leb r.fire_at now) (Dict.values m)),
      taken_ids,
      get-delete_all id (due now m) m ∙ ap (λ b. if b then none else Dict.get id m) taken_ids,
    )
