-- ===== src/Tests/Services.antt =====
-- Runs and examples of the provider adapters and of the reminders.
use ascended_core.Base.{
  ℕ, ◌+◌, String, ◌≡◌, refl, none, some, [], ◌∷◌, All, any, leb, if◌then◌else◌, length,
}
use ascended_core.Base.Dict
use ascended_core.Base.Dict.{Dict}
use ascended_core.Base.Dict.Laws.{IsMap}
use ascended_core.Base.Codes.{Text, codes}
use ascended_core.Core.Value.{end}
use ascended_core.Providers.Auth.{
  in_memory_session_store, in_memory_session_store_laws, verify_session, issue_session,
}
use ascended_core.Providers.Auth.Laws.{verify-issue_session}
use ascended_core.Providers.Search.{SearchDocument, Docs, query, index, tokenize, has_token}
use ascended_core.Providers.Search.Scores.{IsScored, IsRanked, query-IsRanked}
use ascended_core.Providers.Search.Laws.{has_hit, IsKeyed, has_hit-query-index}
use ascended_core.Notifications.Reminders.{ScheduledReminder, Reminders, drain_due}
use ascended_core.Notifications.Reminders.Laws
use ascended_core.Notifications.Reminders.Laws.{IsInOrder, has_id, is_due, drain_due_lem}

verify-issue_session_example :
    let (issued, s') =
      issue_session in_memory_session_store 1000 50 "acct_ada" "sess_1" "tok_1" [] in
    (verify_session in_memory_session_store 1050 issued.token s').0
    ≡ (if leb (50 + 1000) 1050 then none else some issued.session)
verify-issue_session_example =
    verify-issue_session in_memory_session_store in_memory_session_store_laws 1000 50 1050
      "acct_ada" "sess_1" "tok_1" []

abbrev lower : Text → Text
lower s = s

abbrev doc : SearchDocument
doc = record { id = "doc_1"; text = codes "red fish, blue fish"; metadata = none }

abbrev docs : Docs
docs =
    (
      "doc_2",
      record {
        doc = record { id = "doc_2"; text = codes "blue"; metadata = none };
        tokens = codes "blue" ∷ [];
      },
    )
    ∷ []

has_hit-query-index_example :
    has_hit "doc_1" (query lower (codes "blue sky") (index lower doc docs))
    ≡ any
        (λ t. has_token t (tokenize lower (codes "red fish, blue fish")))
        (tokenize lower (codes "blue sky"))
unfolding IsMap IsKeyed Dict.get
has_hit-query-index_example =
    has_hit-query-index lower doc (codes "blue sky") docs (refl, tt) (refl, tt)

query-IsRanked_example :
    All
      (IsScored (length (tokenize lower (codes "blue fish"))))
      (query lower (codes "blue fish") docs)
    × IsRanked (query lower (codes "blue fish") docs)
query-IsRanked_example = query-IsRanked lower (codes "blue fish") docs

abbrev reminder : String → ℕ → ScheduledReminder
reminder id time = record {
  id = id;
  fire_at = time;
  request = record {
    recipient_account_id = "acct_ada";
    template = "reminder";
    template_data = end;
    channels = none;
    metadata = none;
  };
}

abbrev reminders : Reminders
reminders =
    ("rem_1", reminder "rem_1" 30)
    ∷ ("rem_2", reminder "rem_2" 10)
    ∷ ("rem_3", reminder "rem_3" 99)
    ∷ []

drain_due_lem_example :
    let (taken, left) = drain_due 40 reminders in
    IsInOrder taken
    × (has_id "rem_2" taken ≡ is_due 40 (Dict.get "rem_2" reminders))
    × (Dict.get "rem_2" left
        ≡ (if is_due 40 (Dict.get "rem_2" reminders) then none else Dict.get "rem_2" reminders))
unfolding IsMap Laws.IsKeyed Dict.get
drain_due_lem_example =
    drain_due_lem 40 "rem_2" reminders (refl, (refl, (refl, tt))) (refl, (refl, (refl, tt)))
