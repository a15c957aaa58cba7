-- ===== src/Realtime/Rooms/Closing.antt =====
-- Sequences of calls of a room manager, and what they leave of a closed room.
use ascended_core.Base.{
  String, ◌≡◌, refl, sym, ap, subst, ◌∙◌, ◌⊎◌, inl, inr, false, Option, none, some, List, [], ◌∷◌,
  arith, str_eq, eq_iff, Bool-cases, Option-cases,
}
use mathlib.Core.Option.{some-injective}
use ascended_core.Base.Dict
use ascended_core.Base.Dict.{get-set, get-delete}
use ascended_core.Base.Dict.Laws.{get-set_other}
use ascended_core.Core.Value.{Metadata}
use ascended_core.Realtime.{Services}
use ascended_core.Realtime.Rooms.{
  RoomState, opened, closed, CreateRoomOptions, RoomRecord, Rooms, room_missing, create_room_named,
  create_room, enter, join_room, leave_room, close_room,
}

pub data RoomCommand : Type 0 where
  create : CreateRoomOptions → RoomCommand
  join : String → String → Option Metadata → RoomCommand
  leave : String → String → RoomCommand
  close : String → RoomCommand

module _ {W : Type 0} (services : Services W) where
  -- the rooms and the world behind a call, whether it fulfils or rejects
  pub after_command : RoomCommand → Rooms → W → Rooms × W
  after_command (create options) rooms w =
      let (answer, rooms', w') = create_room services options rooms w in (rooms', w')
  after_command (join id account metadata) rooms w =
      let (answer, rooms', w') = join_room services id account metadata rooms w in (rooms', w')
  after_command (leave id account) rooms w =
      let (answer, rooms', w') = leave_room services id account rooms w in (rooms', w')
  after_command (close id) rooms w =
      let (answer, rooms', w') = close_room services id rooms w in (rooms', w')

  pub after_commands : List RoomCommand → Rooms → W → Rooms × W
  unfolding after_command
  after_commands [] rooms w = (rooms, w)
  after_commands (c ∷ cs) rooms w =
      let (rooms', w') = after_command c rooms w in after_commands cs rooms' w'

-- the record of a room that is closed and that the account is not in
abbrev IsBarred : String → RoomRecord → Type 0
IsBarred account r = (r.room.state ≡ closed) × (Dict.get account r.participants ≡ none)

-- the room is there, and closed, and the account is not in it
unfoldable pub IsShutFor : String → String → Rooms → Type 0
IsShutFor account id rooms = (r : RoomRecord) × (Dict.get id rooms ≡ some r) × IsBarred account r

found_shut :
    (account id k : String) (rooms : Rooms) (r : RoomRecord)
    → IsShutFor account id rooms
    → Dict.get k rooms ≡ some r
    → (str_eq k id ≡ false) ⊎ IsBarred account r
unfolding IsShutFor
found_shut account id k rooms r shut h = elim (Bool-cases (str_eq k id)) [
  | inr differ ↦ inl differ
  | inl same ↦ inr (
      subst (λ r'. IsBarred account r')
        (some-injective shut.0 r
          (sym shut.1 ∙ (ap (λ i. Dict.get i rooms) (sym ((eq_iff k id).0 same)) ∙ h)))
        shut.2)
]

free_differs :
    (account id k : String) (rooms : Rooms)
    → IsShutFor account id rooms
    → Dict.get k rooms ≡ none
    → str_eq k id ≡ false
unfolding IsShutFor
free_differs account id k rooms shut free = ground (arith, eq_iff k id, shut.1, free)

RoomState-cases : (s : RoomState) → (s ≡ opened) ⊎ (s ≡ closed)
RoomState-cases opened = inl refl
RoomState-cases closed = inr refl

open_differs :
    (account id k : String) (rooms : Rooms) (r : RoomRecord)
    → IsShutFor account id rooms
    → Dict.get k rooms ≡ some r
    → r.room.state ≡ opened
    → str_eq k id ≡ false
open_differs account id k rooms r shut found is_open =
    elim (found_shut account id k rooms r shut found) [
      | inl differ ↦ differ
      | inr barred ↦ ground (arith, barred.0, is_open)
    ]

IsBarred-delete :
    (account j : String) (r : RoomRecord)
    → IsBarred account r
    → IsBarred account (record r { participants = Dict.delete j r.participants })
IsBarred-delete account j r barred = (
  barred.0,
  get-delete j account r.participants ∙ (elim (Bool-cases (str_eq j account)) [
    | inl same ↦ rw same refl
    | inr differ ↦ rw differ barred.1
  ]),
)

IsShutFor-set :
    (account id k : String) (rooms : Rooms) (r : RoomRecord)
    → (str_eq k id ≡ false) ⊎ IsBarred account r
    → IsShutFor account id rooms
    → IsShutFor account id (Dict.set k r rooms)
unfolding IsShutFor
IsShutFor-set account id k rooms r (inl differ) shut =
    (shut.0, get-set_other k id r rooms differ ∙ shut.1, shut.2)
IsShutFor-set account id k rooms r (inr barred) shut = elim (Bool-cases (str_eq k id)) [
  | inl same ↦ (r, get-set k id r rooms ∙ (rw same refl), barred)
  | inr differ ↦ (shut.0, get-set_other k id r rooms differ ∙ shut.1, shut.2)
]

module _ {W : Type 0} (services : Services W) (account id : String) where
  create_named-IsShutFor :
      (k : String) (metadata : Option Metadata) (rooms : Rooms) (w : W)
      → IsShutFor account id rooms
      → IsShutFor account id (create_room_named services k metadata rooms w).1
  unfolding create_room_named
  create_named-IsShutFor k metadata rooms w shut = elim (Option-cases (Dict.get k rooms)) [
    | inl free ↦
        rw (free, create_room_named)
          (IsShutFor-set account id k rooms _ (inl (free_differs account id k rooms shut free))
            shut)
    | inr (r, taken) ↦ rw (taken, create_room_named) shut
  ]

  enter-IsShutFor :
      (k j : String) (metadata : Option Metadata) (r : RoomRecord) (rooms : Rooms) (w : W)
      → str_eq k id ≡ false
      → IsShutFor account id rooms
      → IsShutFor account id (enter services k j metadata r rooms w).1
  unfolding enter
  enter-IsShutFor k j metadata r rooms w differ shut =
      elim (Option-cases (Dict.get j r.participants)) [
        | inl absent ↦ rw (absent, enter) (IsShutFor-set account id k rooms _ (inl differ) shut)
        | inr (p, present) ↦ rw (present, enter) shut
      ]

  join-IsShutFor :
      (k j : String) (metadata : Option Metadata) (rooms : Rooms) (w : W)
      → IsShutFor account id rooms
      → IsShutFor account id (join_room services k j metadata rooms w).1
  unfolding join_room room_missing
  join-IsShutFor k j metadata rooms w shut = elim (Option-cases (Dict.get k rooms)) [
    | inl missing ↦ rw (missing, join_room) shut
    | inr (r, found) ↦ elim (RoomState-cases r.room.state) [
      | inl is_open ↦
          rw (found, join_room)
            (rw (is_open, join_room)
              (enter-IsShutFor k j metadata r rooms w
                (open_differs account id k rooms r shut found is_open) shut))
      | inr is_closed ↦ rw (found, join_room) (rw (is_closed, join_room) shut)
    ]
  ]

  leave-IsShutFor :
      (k j : String) (rooms : Rooms) (w : W)
      → IsShutFor account id rooms
      → IsShutFor account id (leave_room services k j rooms w).1
  unfolding leave_room room_missing
  leave-IsShutFor k j rooms w shut = elim (Option-cases (Dict.get k rooms)) [
    | inl missing ↦ rw (missing, leave_room) shut
    | inr (r, found) ↦ elim (Option-cases (Dict.get j r.participants)) [
      | inl absent ↦ rw (found, leave_room) (rw (absent, leave_room) shut)
      | inr (p, present) ↦
          rw (found, leave_room)
            (rw (present, leave_room)
              (IsShutFor-set account id k rooms
                (record r { participants = Dict.delete j r.participants })
                (elim (found_shut account id k rooms r shut found) [
                  | inl differ ↦ inl differ
                  | inr barred ↦ inr (IsBarred-delete account j r barred)
                ])
                shut))
    ]
  ]

  close-IsShutFor :
      (k : String) (rooms : Rooms) (w : W)
      → IsShutFor account id rooms
      → IsShutFor account id (close_room services k rooms w).1
  unfolding close_room room_missing
  close-IsShutFor k rooms w shut = elim (Option-cases (Dict.get k rooms)) [
    | inl missing ↦ rw (missing, close_room) shut
    | inr (r, found) ↦
        rw (found, close_room)
          (IsShutFor-set account id k rooms (record r { room = record r.room { state = closed } })
            (elim (found_shut account id k rooms r shut found) [
              | inl differ ↦ inl differ
              | inr barred ↦ inr (refl, barred.1)
            ])
            shut)
  ]

  command-IsShutFor :
      (c : RoomCommand) (rooms : Rooms) (w : W)
      → IsShutFor account id rooms
      → IsShutFor account id (after_command services c rooms w).0
  unfolding after_command create_room
  command-IsShutFor (create options) rooms w shut = elim (Option-cases options.id) [
    | inl generated ↦
        rw (generated, create_room)
          (let (k, w') = services.create_id "room" w in
            create_named-IsShutFor k options.metadata rooms w' shut)
    | inr (k, given) ↦
        rw (given, create_room) (create_named-IsShutFor k options.metadata rooms w shut)
  ]
  command-IsShutFor (join k j metadata) rooms w shut = join-IsShutFor k j metadata rooms w shut
  command-IsShutFor (leave k j) rooms w shut = leave-IsShutFor k j rooms w shut
  command-IsShutFor (close k) rooms w shut = close-IsShutFor k rooms w shut

  -- A closed room stays there and closed whatever calls follow, on this room or on others, and
  -- whether they fulfil or reject; an account that was not in it never gets in.
  pub after_commands-IsShutFor :
      (cs : List RoomCommand) (rooms : Rooms) (w : W)
      → IsShutFor account id rooms
      → IsShutFor account id (after_commands services cs rooms w).0
  unfolding after_commands
  after_commands-IsShutFor [] rooms w shut = shut
  after_commands-IsShutFor (c ∷ cs) rooms w shut =
      let (rooms', w') = after_command services c rooms w in
      after_commands-IsShutFor cs rooms' w' (command-IsShutFor c rooms w shut)
