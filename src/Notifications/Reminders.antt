-- ===== src/Notifications/Reminders.antt =====
-- packages/notifications/src/workflows.ts. Times are milliseconds; the id that `createId` makes and
-- the clock's time are arguments.
pub mod Laws
use ascended_core.Base.{ℕ, String, List, [], ◌∷◌, filter, leb, if◌then◌else◌}
use ascended_core.Base.Dict
use ascended_core.Base.Dict.{Dict}
use ascended_core.Notifications.Preferences.{NotificationRequest}

pub record ScheduledReminder : Type 0 where
  pub id : String
  pub fire_at : ℕ
  pub request : NotificationRequest

abbrev pub Reminders : Type 0
Reminders = Dict ScheduledReminder

unfoldable pub schedule_reminder :
    ℕ → NotificationRequest → String → Reminders → ScheduledReminder × Reminders
schedule_reminder fire_at request id reminders =
    let r : ScheduledReminder = record { id = id; fire_at = fire_at; request = request } in
    (r, Dict.set id r reminders)

unfoldable pub cancel_reminder : String → Reminders → Reminders
cancel_reminder id reminders = Dict.delete id reminders

-- the stable sort by ascending time
unfoldable pub insert_reminder : ScheduledReminder → List ScheduledReminder → List ScheduledReminder
insert_reminder r [] = r ∷ []
insert_reminder r (s ∷ ss) =
    let rest = insert_reminder r ss in if leb r.fire_at s.fire_at then r ∷ s ∷ ss else s ∷ rest

unfoldable pub sort_reminders : List ScheduledReminder → List ScheduledReminder
unfolding insert_reminder
sort_reminders [] = []
sort_reminders (r ∷ rs) = insert_reminder r (sort_reminders rs)

unfoldable pub due : ℕ → Reminders → List ScheduledReminder
unfolding sort_reminders
due now reminders = sort_reminders (filter (λ r. leb r.fire_at now) (Dict.values reminders))

-- the loop of `drainDue`
unfoldable pub delete_all : List ScheduledReminder → Reminders → Reminders
delete_all [] reminders = reminders
delete_all (r ∷ rs) reminders = delete_all rs (Dict.delete r.id reminders)

unfoldable pub drain_due : ℕ → Reminders → List ScheduledReminder × Reminders
unfolding due delete_all
drain_due now reminders = let rs = due now reminders in (rs, delete_all rs reminders)
