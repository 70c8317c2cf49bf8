-- ===== src/Server/Listing.antt =====
-- crates/arcforge/src/handler.rs: the answer to `ListRooms`. The handler takes the handles of the rooms
-- under the lock, and asks the rooms one by one without it; the order in which the map of the rooms is
-- walked is an argument, and the handle of a room is its id.
use archforge.Prelude.{
  ◌≡◌, refl, List, [], ◌∷◌, ◌++◌, Result, ok, err, map, if◌then◌else◌, Bool-cases, inl, inr,
}
use archforge.Protocol.{RoomId, RoomListEntry}
use archforge.Room.State.{RoomError, is_joinable}
use archforge.Room.Logic.{GameLogic}
use archforge.Room.Actor.{RoomInfo, Sends}
use archforge.Room.Manager
use archforge.Room.Manager.{RoomManager, listed}

-- A row of the list of rooms.
unfoldable pub entry : RoomInfo → RoomListEntry
entry i = record { room_id = i.room_id; player_count = i.player_count; max_players = i.max_players }

-- The row that a room's answer adds.
unfoldable pub entry_of : Result RoomError RoomInfo → List RoomListEntry
unfolding entry
entry_of (err e) = []
entry_of (ok i) = if is_joinable i.state then entry i ∷ [] else []

entry_of-listed :
    (r : Result RoomError RoomInfo) (infos : List RoomInfo)
    → entry_of r ++ map entry infos ≡ map entry (listed r ++ infos)
unfolding entry_of listed
entry_of-listed (err e) infos = refl
entry_of-listed (ok i) infos = elim (Bool-cases (is_joinable i.state)) [
  | inl free ↦ rw free
  | inr shut ↦ rw shut
]

module _ {g : GameLogic} where
  -- The loop over the handles.
  unfoldable pub room_entries :
      RoomManager g → List RoomId → RoomManager g × List RoomListEntry × Sends g
  unfolding entry_of
  room_entries m [] = (m, [], [])
  room_entries m (rid ∷ rids) =
      let (m', answer, sends) = Manager.get_room_info m rid in
      let (m'', entries, more) = room_entries m' rids in
      (m'', entry_of answer ++ entries, sends ++ more)

  -- One more room.
  row :
      (r : Result RoomError RoomInfo) (sends : Sends g)
      (x : RoomManager g × List RoomListEntry × Sends g)
      (y : RoomManager g × List RoomInfo × Sends g)
      → x ≡ (y.0, map entry y.1, y.2)
      → ◌≡◌ {A = RoomManager g × List RoomListEntry × Sends g}
          (x.0, entry_of r ++ x.1, sends ++ x.2)
          (y.0, map entry (listed r ++ y.1), sends ++ y.2)
  row r sends x y h = rw h (λ i. (y.0, entry_of-listed r y.1 i, sends ++ y.2))

  -- The list that a client gets has a row for each room that the manager's own `list_rooms` would
  -- list, in the same order, and the rooms are as that call leaves them.
  pub room_entries-list_rooms :
      (m : RoomManager g) (order : List RoomId)
      → let (m', infos, sends) = Manager.list_rooms m order in
        room_entries m order ≡ (m', map entry infos, sends)
  unfolding room_entries Manager.list_rooms
  room_entries-list_rooms m [] = refl
  room_entries-list_rooms m (rid ∷ rids) =
      let (m', answer, sends) = Manager.get_room_info m rid in
      row answer sends (room_entries m' rids) (Manager.list_rooms m' rids)
        (room_entries-list_rooms m' rids)
