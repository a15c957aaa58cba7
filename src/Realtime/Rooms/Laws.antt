-- ===== src/Realtime/Rooms/Laws.antt =====
-- Joining a room and leaving it again.
use ascended_core.Base.{String, ◌≡◌, refl, ◌∙◌, Option, none, some, ap}
use ascended_core.Base.Dict
use ascended_core.Base.Dict.Laws.{get-set_same, set-get, set-set, delete-set}
use ascended_core.Core.Value.{Metadata}
use ascended_core.Realtime.{Services}
use ascended_core.Realtime.Rooms.{
  opened, RoomParticipant, RoomRecord, Rooms, enter, join_room, leave_room,
}

module _ {W : Type 0} (services : Services W) where
  -- who joins
  abbrev newcomer : String → Option Metadata → W → RoomParticipant
  newcomer account metadata w = record {
    account_id = account;
    joined_at = services.now_iso w;
    metadata = metadata;
  }

  abbrev joined : String → String → Option Metadata → RoomRecord → Rooms → W → Rooms
  joined id account metadata r rooms w =
      Dict.set id
        (record r { participants = Dict.set account (newcomer account metadata w) r.participants })
        rooms

  join_room_lem :
      (id account : String) (metadata : Option Metadata) (rooms : Rooms) (w : W) (r : RoomRecord)
      → Dict.get id rooms ≡ some r
      → r.room.state ≡ opened
      → Dict.get account r.participants ≡ none
      → (join_room services id account metadata rooms w).1 ≡ joined id account metadata r rooms w
  unfolding join_room enter
  join_room_lem id account metadata rooms w r found is_open absent =
      rw (found, join_room) (simp (is_open, join_room, absent, enter))

  leave_room_lem :
      (id account : String) (rooms : Rooms) (w : W) (r : RoomRecord) (p : RoomParticipant)
      → Dict.get id rooms ≡ some r
      → Dict.get account r.participants ≡ some p
      → (leave_room services id account rooms w).1
        ≡ Dict.set id (record r { participants = Dict.delete account r.participants }) rooms
  unfolding leave_room
  leave_room_lem id account rooms w r p found present =
      rw (found, leave_room) (rw (present, leave_room) refl)

  -- In an open room that the account is not in, a join that is followed by the account's leaving,
  -- in any later world, gives the rooms back as they were, whether or not the bus takes the events.
  pub leave-join :
      (id account : String) (metadata : Option Metadata) (rooms : Rooms) (w w' : W) (r : RoomRecord)
      → Dict.get id rooms ≡ some r
      → r.room.state ≡ opened
      → Dict.get account r.participants ≡ none
      → (leave_room services id account (join_room services id account metadata rooms w).1 w').1
        ≡ rooms
  leave-join id account metadata rooms w w' r found is_open absent =
      let inside : RoomRecord = record r {
        participants = Dict.set account (newcomer account metadata w) r.participants;
      } in
      ap (λ s. (leave_room services id account s w').1)
        (join_room_lem id account metadata rooms w r found is_open absent)
      ∙ leave_room_lem id account (joined id account metadata r rooms w) w' inside
          (newcomer account metadata w) (get-set_same id inside rooms)
          (get-set_same account (newcomer account metadata w) r.participants)
      ∙ set-set id _ inside rooms
      ∙ ap (λ ps. Dict.set id (record r { participants = ps }) rooms)
          (delete-set account (newcomer account metadata w) r.participants absent)
      ∙ set-get id r rooms found
