-- ===== src/Realtime/Calls.antt =====
-- packages/realtime/src/calls.ts and local/calls.ts. A `Partial<MediaState>` is a record of
-- options.
pub mod Accounts
pub mod Steps
pub mod Histories
use ascended_core.Base.{
  String, str_append, Bool, true, false, not, Option, none, some, List, [], ◌∷◌, ◌++◌, any, filter,
  str_eq, if◌then◌else◌,
}
use ascended_core.Base.Dict
use ascended_core.Base.Dict.{Dict}
use ascended_core.Core.Value.{string, end, field, Fields, Metadata}
use ascended_core.Core.Errors.{not_found, conflict}
use ascended_core.Realtime.{Services, Answer, emit_and_return, throw_error}

pub data CallSessionState : Type 0 where
  created active ended : CallSessionState

pub record MediaState : Type 0 where
  pub audio_enabled : Bool
  pub video_enabled : Bool
  pub screen_sharing : Bool

pub record PartialMediaState : Type 0 where
  pub audio_enabled : Option Bool
  pub video_enabled : Option Bool
  pub screen_sharing : Option Bool

pub record CallParticipant : Type 0 where
  pub account_id : String
  pub joined_at : String
  pub media : MediaState
  pub metadata : Option Metadata

pub record CallSession : Type 0 where
  pub id : String
  pub room_id : Option String
  pub state : CallSessionState
  pub created_at : String
  pub ended_at : Option String
  pub participants : List CallParticipant
  pub metadata : Option Metadata

pub record CreateCallSessionOptions : Type 0 where
  pub id : Option String
  pub room_id : Option String
  pub metadata : Option Metadata

abbrev pub default_media_state : MediaState
default_media_state = record {
  audio_enabled = false;
  video_enabled = false;
  screen_sharing = false;
}

abbrev pub Sessions : Type 0
Sessions = Dict CallSession

abbrev pub or_else : Option Bool → Bool → Bool
or_else given b = elim given [ none ↦ b | some c ↦ c ]

-- `{ ...current, ...media }`
pub merge_media : MediaState → PartialMediaState → MediaState
merge_media current media = record {
  audio_enabled = or_else media.audio_enabled current.audio_enabled;
  video_enabled = or_else media.video_enabled current.video_enabled;
  screen_sharing = or_else media.screen_sharing current.screen_sharing;
}

-- `options?.roomId ? { roomId: options.roomId } : {}`: an empty text is dropped
abbrev truthy_text : Option String → Option String
truthy_text none = none
truthy_text (some s) = if str_eq s "" then none else some s

unfoldable pub has_participant : String → List CallParticipant → Bool
has_participant account participants = any (λ p. str_eq p.account_id account) participants

-- the update of the participant at `findIndex`, if there is one
unfoldable pub update_media :
    String → PartialMediaState → List CallParticipant → Option (List CallParticipant)
unfolding merge_media
update_media account media [] = none
update_media account media (p ∷ ps) =
    let rest = update_media account media ps in
    if str_eq p.account_id account
    then some (record p { media = merge_media p.media media } ∷ ps)
    else elim rest [ none ↦ none | some ps' ↦ some (p ∷ ps') ]

pub session_missing : {A W : Type 0} → String → Sessions → W → Answer A Sessions W
session_missing id sessions w =
    throw_error not_found (str_append "Session " (str_append id " not found.")) sessions w

session_ended : {A W : Type 0} → String → Sessions → W → Answer A Sessions W
session_ended id sessions w =
    throw_error conflict (str_append "Session " (str_append id " has ended.")) sessions w

-- `requireActiveOrCreated` before the rest of a call
abbrev pub unless_ended : {A : Type 0} → CallSessionState → A → A → A
unless_ended ended refused rest = refused
unless_ended created refused rest = rest
unless_ended active refused rest = rest

participant_payload : String → String → Fields
participant_payload session_id account_id =
    field "sessionId" (string session_id) (field "accountId" (string account_id) end)

module _ {W : Type 0} (services : Services W) where
  pub create_session_named :
      String → CreateCallSessionOptions → Sessions → W → Answer CallSession Sessions W
  create_session_named id options sessions w = elim (Dict.get id sessions) [
    | some taken ↦
        throw_error conflict (str_append "Session " (str_append id " already exists.")) sessions w
    | none ↦
        let session : CallSession = record {
          id = id;
          room_id = truthy_text options.room_id;
          state = created;
          created_at = services.now_iso w;
          ended_at = none;
          participants = [];
          metadata = options.metadata;
        } in
        emit_and_return services "realtime.call_created" (field "sessionId" (string id) end) session
          (Dict.set id session sessions) w
  ]

  pub create_session : CreateCallSessionOptions → Sessions → W → Answer CallSession Sessions W
  unfolding create_session_named
  create_session options sessions w = elim options.id [
    | some id ↦ create_session_named id options sessions w
    | none ↦
        let (id, w') = services.create_id "call" w in create_session_named id options sessions w'
  ]

  -- an addition to a session that has not ended
  pub admit :
      String
      → String
      → PartialMediaState
      → CallSession
      → Sessions
      → W
      → Answer CallSession Sessions W
  unfolding has_participant merge_media participant_payload
  admit session_id account_id media session sessions w =
      if has_participant account_id session.participants
      then throw_error conflict
          (str_append "Account "
            (str_append account_id (str_append " already in session " (str_append session_id "."))))
          sessions w
      else let participant : CallParticipant = record {
        account_id = account_id;
        joined_at = services.now_iso w;
        media = merge_media default_media_state media;
        metadata = none;
      } in
        let updated : CallSession = record session {
          state = active;
          participants = session.participants ++ participant ∷ [];
        } in
        emit_and_return services "realtime.call_participant_added"
          (participant_payload session_id account_id) updated (Dict.set session_id updated sessions)
          w

  -- `requireActiveOrCreated`, and the addition
  pub add_participant :
      String → String → PartialMediaState → Sessions → W → Answer CallSession Sessions W
  unfolding session_missing session_ended admit
  add_participant session_id account_id media sessions w = elim (Dict.get session_id sessions) [
    | none ↦ session_missing session_id sessions w
    | some session ↦
        unless_ended session.state (session_ended session_id sessions w)
          (admit session_id account_id media session sessions w)
  ]

  pub remove_participant : String → String → Sessions → W → Answer CallSession Sessions W
  unfolding session_missing participant_payload
  remove_participant session_id account_id sessions w = elim (Dict.get session_id sessions) [
    | none ↦ session_missing session_id sessions w
    | some session ↦
        let updated : CallSession = record session {
          participants = filter (λ p. not (str_eq p.account_id account_id)) session.participants;
        } in
        emit_and_return services "realtime.call_participant_removed"
          (participant_payload session_id account_id) updated (Dict.set session_id updated sessions)
          w
  ]

  pub update_media_state :
      String → String → PartialMediaState → Sessions → W → Answer CallSession Sessions W
  unfolding session_missing update_media participant_payload
  update_media_state session_id account_id media sessions w = elim (Dict.get session_id sessions) [
    | none ↦ session_missing session_id sessions w
    | some session ↦ elim (update_media account_id media session.participants) [
      | none ↦
          throw_error not_found
            (str_append "Account "
              (str_append account_id (str_append " not in session " (str_append session_id "."))))
            sessions w
      | some participants ↦
          let updated : CallSession = record session { participants = participants } in
          emit_and_return services "realtime.call_media_updated"
            (participant_payload session_id account_id) updated
            (Dict.set session_id updated sessions) w
    ]
  ]

  pub end_session : String → Sessions → W → Answer CallSession Sessions W
  unfolding session_missing
  end_session session_id sessions w = elim (Dict.get session_id sessions) [
    | none ↦ session_missing session_id sessions w
    | some session ↦
        let updated : CallSession = record session {
          state = ended;
          ended_at = some (services.now_iso w);
        } in
        emit_and_return services "realtime.call_ended" (field "sessionId" (string session_id) end)
          updated (Dict.set session_id updated sessions) w
  ]
