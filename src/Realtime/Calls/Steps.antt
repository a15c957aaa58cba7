-- ===== src/Realtime/Calls/Steps.antt =====
-- The state machine of one call session, as the changes that the calls make to it.
use ascended_core.Base.{
  String, ◌≡◌, refl, sym, subst, ◌∙◌, false, not, Option, some, none, List, [], ◌∷◌, ◌++◌, filter,
  str_eq, ◌≢◌,
}
use ascended_core.Realtime.Calls.{
  created, active, ended, CallParticipant, CallSession, PartialMediaState, has_participant,
  update_media,
}
use ascended_core.Realtime.Calls.Accounts.{
  HasOnceEach, HasOnceEach-append, HasOnceEach-filter, HasOnceEach-update_media,
  has_participant-filter, has_participant-update_media,
}

pub data CallStep : CallSession → CallSession → Type 0 where
  admission :
      (s : CallSession) (p : CallParticipant)
      → s.state ≢ ended
      → has_participant p.account_id s.participants ≡ false
      → CallStep s (record s { state = active; participants = s.participants ++ p ∷ [] })
  removal :
      (s : CallSession) (account : String)
      → CallStep s (record s {
        participants = filter (λ p. not (str_eq p.account_id account)) s.participants;
      })
  media_change :
      (s : CallSession) (account : String) (media : PartialMediaState) (ps : List CallParticipant)
      → update_media account media s.participants ≡ some ps
      → CallStep s (record s { participants = ps })
  ending :
      (s : CallSession) (time : String)
      → CallStep s (record s { state = ended; ended_at = some time })

-- what one call does to a session, `none` while there is none
pub data Change : Option CallSession → Option CallSession → Type 0 where
  kept : (o : Option CallSession) → Change o o
  birth : (s : CallSession) → s.state ≡ created → s.participants ≡ [] → Change none (some s)
  moved : (s t : CallSession) → CallStep s t → Change (some s) (some t)

pub data Changes : Option CallSession → Option CallSession → Type 0 where
  start : (o : Option CallSession) → Changes o o
  and_then : (o p q : Option CallSession) → Change o p → Changes p q → Changes o q

step-HasOnceEach :
    (s t : CallSession) → CallStep s t → HasOnceEach s.participants → HasOnceEach t.participants
step-HasOnceEach _ _ (admission s p going absent) once =
    HasOnceEach-append s.participants p once absent
step-HasOnceEach _ _ (removal s account) once = HasOnceEach-filter _ s.participants once
step-HasOnceEach _ _ (media_change s account media ps updated) once =
    HasOnceEach-update_media account media s.participants ps updated once
step-HasOnceEach _ _ (ending s time) once = once

unfoldable pub IsSound : Option CallSession → Type 0
IsSound none = Unit
IsSound (some s) = HasOnceEach s.participants

Change-IsSound : (o p : Option CallSession) → Change o p → IsSound o → IsSound p
unfolding IsSound HasOnceEach
Change-IsSound _ _ (kept o) sound = sound
Change-IsSound _ _ (birth s new empty) sound = subst HasOnceEach (sym empty) tt
Change-IsSound _ _ (moved s t step) sound = step-HasOnceEach s t step sound

pub changes-IsSound : (o p : Option CallSession) → Changes o p → IsSound o → IsSound p
changes-IsSound _ _ (start o) sound = sound
changes-IsSound _ _ (and_then o p q change changes) sound =
    changes-IsSound p q changes (Change-IsSound o p change sound)

-- ended, and the account is not in it
unfoldable pub IsEndedWithout : String → CallSession → Type 0
IsEndedWithout account s = (s.state ≡ ended) × (has_participant account s.participants ≡ false)

step-IsEndedWithout :
    (account : String) (s t : CallSession)
    → CallStep s t
    → IsEndedWithout account s
    → IsEndedWithout account t
unfolding IsEndedWithout
step-IsEndedWithout account _ _ (admission s p going absent) over = absurd (going over.0)
step-IsEndedWithout account _ _ (removal s gone) over =
    (over.0, has_participant-filter account _ s.participants over.1)
step-IsEndedWithout account _ _ (media_change s k media ps updated) over =
    (over.0, has_participant-update_media account k media s.participants ps updated ∙ over.1)
step-IsEndedWithout account _ _ (ending s time) over = (refl, over.1)

unfoldable pub IsOverFor : String → Option CallSession → Type 0
IsOverFor account none = ⊥
IsOverFor account (some s) = IsEndedWithout account s

Change-IsOverFor :
    (account : String) (o p : Option CallSession)
    → Change o p
    → IsOverFor account o
    → IsOverFor account p
unfolding IsOverFor
Change-IsOverFor account _ _ (kept o) over = over
Change-IsOverFor account _ _ (birth s new empty) over = absurd over
Change-IsOverFor account _ _ (moved s t step) over = step-IsEndedWithout account s t step over

pub changes-IsOverFor :
    (account : String) (o p : Option CallSession)
    → Changes o p
    → IsOverFor account o
    → IsOverFor account p
changes-IsOverFor account _ _ (start o) over = over
changes-IsOverFor account _ _ (and_then o p q change changes) over =
    changes-IsOverFor account p q changes (Change-IsOverFor account o p change over)
