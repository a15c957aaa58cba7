-- ===== src/Tests/Realtime.antt =====
-- Runs and examples of the realtime adapters.
use ascended_core.Base.{
  ℕ, suc, String, str_append, ◌≡◌, refl, true, Option, none, some, List, [], ◌∷◌, arith, str_eq,
  ◌==◌, if◌then◌else◌, ==_iff,
}
use Prim.Native.String.{len}
use ascended_core.Base.Dict
use ascended_core.Base.Dict.Laws.{IsMap}
use ascended_core.Core.Errors.{js_error}
use ascended_core.Core.Result.{ok, err}
use ascended_core.Realtime.{Services}
use ascended_core.Realtime.Rooms.{opened, closed, RoomRecord, Rooms, join_room, leave_room}
use ascended_core.Realtime.Rooms.Laws.{leave-join}
use ascended_core.Realtime.Rooms.Closing
use ascended_core.Realtime.Rooms.Closing.{RoomCommand, IsShutFor, after_commands-IsShutFor}
use ascended_core.Realtime.Calls.{has_participant, CallSession, ended, PartialMediaState}
use ascended_core.Realtime.Calls.Steps.{Changes, IsOverFor, IsEndedWithout}
use ascended_core.Realtime.Calls.Histories
use ascended_core.Realtime.Calls.Histories.{
  CallCommand, after_commands-Changes, after_commands-IsOverFor,
}
use ascended_core.Realtime.Presence.{PresenceEntry, online, Entries, get_presence, sweep_expired}
use ascended_core.Realtime.Presence.Laws.{get_presence-sweep_expired}
use ascended_core.Realtime.PubSub.{empty_pubsub, subscribe, unsubscribe}
use ascended_core.Realtime.PubSub.Laws.{IsSilenced, unsubscribe-subscribe_again}
use ascended_core.Realtime.Webhooks.{Platform, verify_signature, sign_payload}
use ascended_core.Realtime.Webhooks.Laws.{verify_signature_lem}

-- the world counts the ids that were made; the bus refuses its third event
abbrev services : Services ℕ
services = record {
  create_id = λ prefix n. (str_append prefix "_00000001", suc n);
  now_iso = λ n. "2026-01-01T00:00:00.000Z";
  publish = λ event n. (if n == 3 then err (js_error "bus down") else ok tt, n);
}

abbrev lobby : RoomRecord
lobby = record {
  room = record { id = "room_lobby"; state = opened; created_at = "t0"; metadata = none };
  participants = [];
}

abbrev two_rooms : Rooms
two_rooms =
    ("room_lobby", lobby)
    ∷ ("room_shut", record lobby { room = record lobby.room { id = "room_shut"; state = closed } })
    ∷ []

leave-join_example :
    (leave_room services "room_lobby" "acct_ada"
      (join_room services "room_lobby" "acct_ada" none two_rooms 0).1
      1).1
    ≡ two_rooms
unfolding Dict.get
leave-join_example =
    leave-join services "room_lobby" "acct_ada" none two_rooms 0 1 lobby refl refl refl

abbrev room_commands : List RoomCommand
room_commands =
    RoomCommand.join "room_shut" "acct_ada" none
    ∷ RoomCommand.join "room_lobby" "acct_ada" none
    ∷ RoomCommand.create (record { id = some "room_shut"; metadata = none })
    ∷ RoomCommand.close "room_shut"
    ∷ []

two_rooms-IsShutFor : IsShutFor "acct_ada" "room_shut" two_rooms
unfolding IsShutFor Dict.get
two_rooms-IsShutFor = (_, refl, (refl, refl))

after_commands-IsShutFor_example :
    IsShutFor "acct_ada" "room_shut" (Closing.after_commands services room_commands two_rooms 0).0
after_commands-IsShutFor_example =
    after_commands-IsShutFor services "acct_ada" "room_shut" room_commands two_rooms 0
      two_rooms-IsShutFor

abbrev over_call : CallSession
over_call = record {
  id = "call_over";
  room_id = none;
  state = ended;
  created_at = "t0";
  ended_at = some "t1";
  participants = [];
  metadata = none;
}

abbrev no_media : PartialMediaState
no_media = record { audio_enabled = some true; video_enabled = none; screen_sharing = none }

abbrev call_commands : List CallCommand
call_commands =
    CallCommand.create (record { id = some "call_new"; room_id = none; metadata = none })
    ∷ CallCommand.add "call_new" "acct_ada" no_media
    ∷ CallCommand.add "call_over" "acct_ada" no_media
    ∷ CallCommand.update "call_new" "acct_ada" no_media
    ∷ CallCommand.remove "call_new" "acct_ada"
    ∷ CallCommand.end_call "call_new"
    ∷ []

after_commands-Changes_example :
    Changes none (Dict.get "call_new" (Histories.after_commands services call_commands [] 0).0)
unfolding Dict.get
after_commands-Changes_example = after_commands-Changes services "call_new" call_commands [] 0

after_commands-IsOverFor_example : IsOverFor "acct_ada" (
    Dict.get "call_over"
      (Histories.after_commands services call_commands (("call_over", over_call) ∷ []) 0).0)
unfolding Dict.get IsOverFor IsEndedWithout has_participant
after_commands-IsOverFor_example =
    after_commands-IsOverFor services "call_over" "acct_ada" call_commands
      (("call_over", over_call) ∷ []) 0 (refl, refl)

abbrev entry : String → Option ℕ → PresenceEntry
entry account expires = record {
  account_id = account;
  status = online;
  updated_at = 0;
  expires_at = expires;
  metadata = none;
}

abbrev entries : Entries
entries =
    ("acct_ada", entry "acct_ada" (some 5))
    ∷ ("acct_bob", entry "acct_bob" (some 50))
    ∷ ("acct_eve", entry "acct_eve" none)
    ∷ []

get_presence-sweep_expired_example :
    get_presence (λ (n : ℕ). n) "acct_bob" (sweep_expired services (λ n. n) entries 10).1 60
    ≡ get_presence (λ (n : ℕ). n) "acct_bob" entries 60
unfolding IsMap Dict.get
get_presence-sweep_expired_example =
    get_presence-sweep_expired services (λ n. n) "acct_bob" entries 10 60 (refl, (refl, (refl, tt)))
      (omega arith)

unsubscribe-subscribe_again_example :
    let (first, once) = subscribe "topic" 7 empty_pubsub in
    let (second, twice) = subscribe "topic" 7 once in
    IsSilenced second "topic" 7 (unsubscribe first twice)
    × IsSilenced first "topic" 7 (unsubscribe second twice)
unsubscribe-subscribe_again_example = unsubscribe-subscribe_again "topic" 7 empty_pubsub

-- a platform whose HMAC puts the secret in front, and that throws on texts of two lengths
abbrev platform : Platform
platform = record {
  hmac_sha256_hex = λ secret payload. str_append secret payload;
  byte_length = λ s. len s;
  timing_safe_equal = λ s t. if len s == len t then some (str_eq s t) else none;
  stringify = λ event. event.id;
}

platform_compares :
    (s t : String)
    → platform.byte_length s ≡ platform.byte_length t
    → platform.timing_safe_equal s t ≡ some (str_eq s t)
platform_compares s t h = rw ((==_iff (len s) (len t)).1 h) refl

verify_signature_lem_example :
    verify_signature platform "key" "body" "keybody"
    ≡ some (str_eq (sign_payload platform "key" "body") "keybody")
verify_signature_lem_example =
    verify_signature_lem platform platform_compares "key" "body" "keybody"
