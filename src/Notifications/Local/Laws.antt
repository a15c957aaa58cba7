-- ===== src/Notifications/Local/Laws.antt =====
-- What a delivery to the inbox leaves there.
use ascended_core.Base.{
  String, ◌≡◌, refl, ap, ◌∙◌, [], ◌∷◌, ◌++◌, str_eq, if◌then◌else◌, Bool-cases, inl, inr,
}
use ascended_core.Base.Dict.{get-set}
use ascended_core.Notifications.Preferences.{NotificationRequest}
use ascended_core.Notifications.Local.{Inboxes, items_or_none, list_inbox, deliver_in_app}

-- A delivery puts one item, with the request's template and data, at the end of the recipient's
-- inbox, and leaves the inboxes of the other accounts alone.
pub list_inbox-deliver_in_app :
    (request : NotificationRequest) (now account : String) (inboxes : Inboxes)
    → list_inbox account (deliver_in_app request now inboxes) ≡ (
        if str_eq request.recipient_account_id account
        then list_inbox request.recipient_account_id inboxes
          ++ record {
            template = request.template;
            template_data = request.template_data;
            delivered_at = now;
          }
            ∷ []
        else list_inbox account inboxes)
unfolding list_inbox deliver_in_app
list_inbox-deliver_in_app request now account inboxes =
    ap items_or_none (get-set request.recipient_account_id account _ inboxes)
    ∙ (elim (Bool-cases (str_eq request.recipient_account_id account)) [
      | inl same ↦ rw same refl
      | inr differ ↦ rw differ refl
    ])
