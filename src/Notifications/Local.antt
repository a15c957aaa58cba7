-- ===== src/Notifications/Local.antt =====
-- packages/notifications/src/local.ts. The time of a delivery is an argument.
pub mod Laws
use ascended_core.Base.{String, Option, none, some, List, [], ◌∷◌, ◌++◌}
use ascended_core.Base.Dict
use ascended_core.Base.Dict.{Dict}
use ascended_core.Core.Value.{Fields}
use ascended_core.Notifications.Preferences.{NotificationRequest}

pub record InboxItem : Type 0 where
  pub template : String
  pub template_data : Fields
  pub delivered_at : String

abbrev pub Inboxes : Type 0
Inboxes = Dict (List InboxItem)

-- `this.inboxes.get(accountId) ?? []`, and `list`, which copies it
abbrev pub items_or_none : Option (List InboxItem) → List InboxItem
items_or_none none = []
items_or_none (some items) = items

unfoldable pub list_inbox : String → Inboxes → List InboxItem
list_inbox account inboxes = items_or_none (Dict.get account inboxes)

-- `InMemoryInAppInbox.deliver`
unfoldable pub deliver_in_app : NotificationRequest → String → Inboxes → Inboxes
unfolding list_inbox
deliver_in_app request now inboxes =
    Dict.set request.recipient_account_id
      (list_inbox request.recipient_account_id inboxes
        ++ record {
          template = request.template;
          template_data = request.template_data;
          delivered_at = now;
        }
          ∷ [])
      inboxes

-- `RecordingEmailSender.deliver` and `RecordingPushSender.deliver`
unfoldable pub record_email :
    NotificationRequest → List NotificationRequest → List NotificationRequest
record_email request sent = sent ++ request ∷ []

unfoldable pub record_push :
    NotificationRequest → List NotificationRequest → List NotificationRequest
record_push request sent = sent ++ request ∷ []
