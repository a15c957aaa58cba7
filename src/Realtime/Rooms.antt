-- ===== src/Realtime/Rooms.antt =====
-- packages/realtime/src/rooms.ts and local/rooms.ts. A room's record is reached through the map
-- alone, so a change of the object is a change of the map's entry.
pub mod Laws
pub mod Closing
use ascended_core.Base.{String, str_append, Bool, true, false, Option, none, some, List, [], map}
use ascended_core.Base.Dict
use ascended_core.Base.Dict.{Dict}
use ascended_core.Core.Value.{string, end, field, Metadata}
use ascended_core.Core.Errors.{not_found, conflict}
use ascended_core.Core.Result.{ok}
use ascended_core.Realtime.{Services, Answer, emit_and_return, throw_error}

pub data RoomState : Type 0 where
  opened closed : RoomState

pub record RoomParticipant : Type 0 where
  pub account_id : String
  pub joined_at : String
  pub metadata : Option Metadata

pub record Room : Type 0 where
  pub id : String
  pub state : RoomState
  pub created_at : String
  pub metadata : Option Metadata

pub record CreateRoomOptions : Type 0 where
  pub id : Option String
  pub metadata : Option Metadata

pub record RoomRecord : Type 0 where
  pub room : Room
  pub participants : Dict RoomParticipant

abbrev pub Rooms : Type 0
Rooms = Dict RoomRecord

pub room_missing : {A W : Type 0} → String → Rooms → W → Answer A Rooms W
room_missing id rooms w =
    throw_error not_found (str_append "Room " (str_append id " not found.")) rooms w

module _ {W : Type 0} (services : Services W) where
  -- behind the choice of the id
  pub create_room_named : String → Option Metadata → Rooms → W → Answer Room Rooms W
  create_room_named id metadata rooms w = elim (Dict.get id rooms) [
    | some taken ↦
        throw_error conflict (str_append "Room " (str_append id " already exists.")) rooms w
    | none ↦
        let room : Room = record {
          id = id;
          state = opened;
          created_at = services.now_iso w;
          metadata = metadata;
        } in
        emit_and_return services "realtime.room_created" (field "roomId" (string id) end) room
          (Dict.set id (record { room = room; participants = [] }) rooms) w
  ]

  pub create_room : CreateRoomOptions → Rooms → W → Answer Room Rooms W
  unfolding create_room_named
  create_room options rooms w = elim options.id [
    | some id ↦ create_room_named id options.metadata rooms w
    | none ↦
        let (id, w') = services.create_id "room" w in create_room_named id options.metadata rooms w'
  ]

  -- a join of a room that is open
  pub enter :
      String → String → Option Metadata → RoomRecord → Rooms → W → Answer RoomParticipant Rooms W
  enter room_id account_id metadata r rooms w = elim (Dict.get account_id r.participants) [
    | some existing ↦ (ok existing, rooms, w)
    | none ↦
        let participant : RoomParticipant = record {
          account_id = account_id;
          joined_at = services.now_iso w;
          metadata = metadata;
        } in
        emit_and_return services "realtime.room_joined"
          (field "roomId" (string room_id) (field "accountId" (string account_id) end)) participant
          (Dict.set room_id
            (record r { participants = Dict.set account_id participant r.participants }) rooms)
          w
  ]

  pub join_room : String → String → Option Metadata → Rooms → W → Answer RoomParticipant Rooms W
  unfolding enter room_missing
  join_room room_id account_id metadata rooms w = elim (Dict.get room_id rooms) [
    | none ↦ room_missing room_id rooms w
    | some r ↦ elim r.room.state [
      | closed ↦
          throw_error conflict (str_append "Room " (str_append room_id " is closed.")) rooms w
      | opened ↦ enter room_id account_id metadata r rooms w
    ]
  ]

  -- only the removal of a participant is announced
  pub leave_room : String → String → Rooms → W → Answer (Unit {0}) Rooms W
  unfolding room_missing
  leave_room room_id account_id rooms w = elim (Dict.get room_id rooms) [
    | none ↦ room_missing room_id rooms w
    | some r ↦ elim (Dict.get account_id r.participants) [
      | none ↦ (ok tt, rooms, w)
      | some p ↦
          emit_and_return services "realtime.room_left"
            (field "roomId" (string room_id) (field "accountId" (string account_id) end)) tt
            (Dict.set room_id (record r { participants = Dict.delete account_id r.participants })
              rooms)
            w
    ]
  ]

  pub close_room : String → Rooms → W → Answer Room Rooms W
  unfolding room_missing
  close_room room_id rooms w = elim (Dict.get room_id rooms) [
    | none ↦ room_missing room_id rooms w
    | some r ↦
        let room = record r.room { state = closed } in
        emit_and_return services "realtime.room_closed" (field "roomId" (string room_id) end) room
          (Dict.set room_id (record r { room = room }) rooms) w
  ]

unfoldable pub get_room : String → Rooms → Option Room
get_room id rooms = elim (Dict.get id rooms) [ none ↦ none | some r ↦ some r.room ]

unfoldable pub list_participants :
    {W : Type 0} → String → Rooms → W → Answer (List RoomParticipant) Rooms W
unfolding room_missing
list_participants id rooms w = elim (Dict.get id rooms) [
  | none ↦ room_missing id rooms w
  | some r ↦ (ok (Dict.values r.participants), rooms, w)
]
