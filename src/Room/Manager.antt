-- ===== src/Room/Manager.antt =====
-- manager.rs: all rooms, and which player is in which room. The process-wide counter of room ids is
-- a field of the state. The order in which a hash map is walked is an argument of the operations
-- that walk it; a key that is not in the map is passed over. Where the tasks of the rooms run is in
-- Room/Handle: a room that a call goes through is put back as its task leaves it.
pub mod Seats
pub mod Invariant
pub mod Operations
pub mod History
pub mod Matchmaking
pub mod Openings
pub mod Gathering
pub mod Seating
pub mod Tasks
use archforge.Prelude.{
  ℕ, suc, ◌%◌, ◌^◌, ◌+◌, Bool, true, false, ◌&&◌, List, [], ◌∷◌, ◌++◌, Option, none, some, Result,
  ok, err, ltb, ◌==◌, if◌then◌else◌, nat_eq, ok_or, ◌>>=◌,
}
use archforge.Prelude.HashMap
use archforge.Prelude.HashMap.{HashMap}
use archforge.Protocol.{PlayerId, RoomId}
use archforge.Room.State.{
  is_joinable, RoomError, not_found, already_in_room, invalid_state, already_in, in_no_room,
}
use archforge.Room.Logic.{GameLogic}
use archforge.Room.Actor.{RoomInfo, PlayerSender, Sends}
use archforge.Room.Handle
use archforge.Room.Handle.{Room, spawn_room}

pub record RoomManager (g : GameLogic) : Type 0 where
  pub rooms : HashMap RoomId (Room g)
  pub player_rooms : HashMap PlayerId RoomId
  pub next_room_id : ℕ

-- Which of the answers goes into the list of rooms.
unfoldable pub listed : Result RoomError RoomInfo → List RoomInfo
listed (err e) = []
listed (ok i) = if is_joinable i.state then i ∷ [] else []

-- Whether `join_or_create` tries to join a room.
unfoldable pub is_open : RoomInfo → Bool
is_open i = is_joinable i.state && ltb i.player_count i.max_players

module _ {g : GameLogic} where
  unfoldable pub new : ℕ → RoomManager g
  new next_room_id = record {
    rooms = HashMap.new;
    player_rooms = HashMap.new;
    next_room_id = next_room_id;
  }

  unfoldable pub create_room : RoomManager g → g.Config → RoomManager g × RoomId
  unfolding spawn_room
  create_room m game_config =
      let room_id = m.next_room_id in
      let room = spawn_room room_id g.room_config game_config in
      (
        record m {
          rooms = HashMap.insert room_id room m.rooms;
          next_room_id = (room_id + 1) % 2 ^ 64;
        },
        room_id,
      )

  -- The task of a room has gone on.
  abbrev pub put_room : RoomManager g → RoomId → Room g → RoomManager g
  put_room m rid room = record m { rooms = HashMap.insert rid room m.rooms }

  -- The end of a join, with the answer of the room.
  unfoldable pub seat :
      RoomManager g
      → PlayerId
      → RoomId
      → Result RoomError (Unit {0})
      → RoomManager g × Result RoomError (Unit {0})
  seat m pid rid (err e) = (m, err e)
  seat m pid rid (ok _) = (record m { player_rooms = HashMap.insert pid rid m.player_rooms }, ok tt)

  -- `handle.join(player_id, sender).await?; self.player_rooms.insert(player_id, room_id)`.
  unfoldable pub join_in :
      RoomManager g
      → PlayerId
      → RoomId
      → PlayerSender
      → Room g
      → RoomManager g × Result RoomError (Unit {0}) × Sends g
  unfolding seat
  join_in m pid rid sender room =
      let (room', answer, sends) = Handle.join room pid sender in
      let (m', r) = seat (put_room m rid room') pid rid answer in (m', r, sends)

  unfoldable pub join_room :
      RoomManager g
      → PlayerId
      → RoomId
      → PlayerSender
      → RoomManager g × Result RoomError (Unit {0}) × Sends g
  unfolding join_in
  join_room m pid rid sender = elim (HashMap.get pid m.player_rooms) [
    | some current ↦
        if current == rid
        then (m, err (already_in_room pid rid), [])
        else (m, err (invalid_state (already_in pid current)), [])
    | none ↦ elim (HashMap.get rid m.rooms) [
      | none ↦ (m, err (not_found rid), [])
      | some room ↦ join_in m pid rid sender room
    ]
  ]

  unfoldable pub unseat :
      RoomManager g
      → PlayerId
      → Result RoomError (Unit {0})
      → RoomManager g × Result RoomError (Unit {0})
  unseat m pid (err e) = (m, err e)
  unseat m pid (ok _) = (record m { player_rooms = HashMap.remove pid m.player_rooms }, ok tt)

  unfoldable pub leave_room :
      RoomManager g → PlayerId → RoomManager g × Result RoomError (Unit {0}) × Sends g
  unfolding unseat
  leave_room m pid = elim (HashMap.get pid m.player_rooms) [
    | none ↦ (m, err (invalid_state (in_no_room pid)), [])
    | some rid ↦ elim (HashMap.get rid m.rooms) [
      | none ↦ let (m', r) = unseat m pid (ok tt) in (m', r, [])
      | some room ↦
          let (room', answer, sends) = Handle.leave_room room pid in
          let (m', r) = unseat (put_room m rid room') pid answer in (m', r, sends)
    ]
  ]

  unfoldable pub route_message :
      RoomManager g → PlayerId → g.ClientMessage → RoomManager g × Result RoomError (Unit {0})
  route_message m pid msg = elim (HashMap.get pid m.player_rooms) [
    | none ↦ (m, err (invalid_state (in_no_room pid)))
    | some rid ↦ elim (HashMap.get rid m.rooms) [
      | none ↦ (m, err (not_found rid))
      | some room ↦
          let (room', answer) = Handle.send_message room pid msg in (put_room m rid room', answer)
    ]
  ]

  unfoldable pub get_room_info :
      RoomManager g → RoomId → RoomManager g × Result RoomError RoomInfo × Sends g
  get_room_info m rid = elim (HashMap.get rid m.rooms) [
    | none ↦ (m, err (not_found rid), [])
    | some room ↦
        let (room', answer, sends) = Handle.get_info room in (put_room m rid room', answer, sends)
  ]

  -- The room's task is handed back: it stops when it comes to the `Shutdown` in its channel.
  unfoldable pub destroy_room :
      RoomManager g → RoomId → RoomManager g × Result RoomError (Unit {0}) × Option (Room g)
  destroy_room m rid = elim (HashMap.get rid m.rooms) [
    | none ↦ (m, err (not_found rid), none)
    | some room ↦
        let (room', _) = Handle.shutdown room in
        (
          record m {
            rooms = HashMap.remove rid m.rooms;
            player_rooms = HashMap.retain (λ _ r. if r == rid then false else true) m.player_rooms;
          },
          ok tt,
          some room',
        )
  ]

  unfoldable pub player_room : RoomManager g → PlayerId → Option RoomId
  player_room m pid = HashMap.get pid m.player_rooms

  unfoldable pub room_count : RoomManager g → ℕ
  room_count m = HashMap.len m.rooms

  unfoldable pub room_ids : RoomManager g → List RoomId
  room_ids m = HashMap.keys m.rooms

  unfoldable pub list_rooms : RoomManager g → List RoomId → RoomManager g × List RoomInfo × Sends g
  unfolding listed get_room_info
  list_rooms m [] = (m, [], [])
  list_rooms m (rid ∷ rids) =
      let (m', answer, sends) = get_room_info m rid in
      let (m'', infos, more) = list_rooms m' rids in (m'', listed answer ++ infos, sends ++ more)

  -- The body of the loop of `join_or_create` at an open room, with the answer of the room.
  unfoldable pub take_room :
      RoomManager g
      → PlayerId
      → RoomId
      → Result RoomError (Unit {0})
      → Sends g
      → RoomManager g × Option RoomId × Sends g
  take_room m pid rid (err e) sends = (m, none, sends)
  take_room m pid rid (ok _) sends =
      (record m { player_rooms = HashMap.insert pid rid m.player_rooms }, some rid, sends)

  -- The body of that loop, with what the room says of itself.
  unfoldable pub try_info :
      RoomManager g
      → PlayerId
      → PlayerSender
      → RoomId
      → Room g
      → Result RoomError RoomInfo
      → Sends g
      → RoomManager g × Option RoomId × Sends g
  unfolding is_open take_room
  try_info m pid sender rid room (err e) sends = (m, none, sends)
  try_info m pid sender rid room (ok i) sends =
      if is_open i
      then (let (room', answer, more) = Handle.join room pid sender in
          take_room (put_room m rid room') pid i.room_id answer (sends ++ more))
      else (m, none, sends)

  -- One round of the loop of `join_or_create`: the id of the room, if the join succeeds.
  unfoldable pub try_room :
      RoomManager g → PlayerId → PlayerSender → RoomId → RoomManager g × Option RoomId × Sends g
  unfolding try_info
  try_room m pid sender rid = elim (HashMap.get rid m.rooms) [
    | none ↦ (m, none, [])
    | some room ↦
        let (room', answer, sends) = Handle.get_info room in
        try_info (put_room m rid room') pid sender rid room' answer sends
  ]

  unfoldable pub try_rooms :
      RoomManager g
      → PlayerId
      → PlayerSender
      → List RoomId
      → RoomManager g × Option RoomId × Sends g
  unfolding try_room
  try_rooms m pid sender [] = (m, none, [])
  try_rooms m pid sender (rid ∷ rids) =
      let (m', found, sends) = try_room m pid sender rid in
      let rest = try_rooms m' pid sender rids in
      elim found [
        | some joined ↦ (m', some joined, sends)
        | none ↦ (rest.0, rest.1, sends ++ rest.2)
      ]

  -- The end of `join_or_create`, when no room was found. The new room is in the map, so the case
  -- in which the source would panic does not arise.
  unfoldable pub join_new :
      RoomManager g
      → PlayerId
      → g.Config
      → PlayerSender
      → RoomManager g × Result RoomError RoomId × Sends g
  unfolding create_room join_in
  join_new m pid game_config sender =
      let (m', rid) = create_room m game_config in
      elim (HashMap.get rid m'.rooms) [
        | none ↦ (m', err (not_found rid), [])
        | some room ↦
            let (m'', answer, sends) = join_in m' pid rid sender room in
            (m'', answer >>= (λ _. ok rid), sends)
      ]

  unfoldable pub join_or_create :
      RoomManager g
      → List RoomId
      → PlayerId
      → g.Config
      → PlayerSender
      → RoomManager g × Result RoomError RoomId × Sends g
  unfolding try_rooms join_new
  join_or_create m order pid game_config sender = elim (HashMap.get pid m.player_rooms) [
    | some existing ↦ (m, err (invalid_state (already_in pid existing)), [])
    | none ↦
        let (m', found, sends) = try_rooms m pid sender order in
        elim found [
          | some rid ↦ (m', ok rid, sends)
          | none ↦
              let (m'', answer, more) = join_new m' pid game_config sender in
              (m'', answer, sends ++ more)
        ]
  ]
