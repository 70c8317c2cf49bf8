-- ===== src/Checks/Gathering.antt =====
-- Two newcomers who ask a new manager for a room.
use archforge.Prelude.{
  ◌≡◌, refl, List, false, [], ◌∷◌, some, none, ok, map, arith, if◌then◌else◌, elem, nat_eq,
}
use archforge.Prelude.HashMap
use archforge.Prelude.HashSet
use archforge.Protocol.{PlayerId}
use archforge.Room.State.{in_progress}
use archforge.Room.Actor.{RoomOutbound, PlayerSender}
use archforge.Room.Actor.Delivery.{received}
use archforge.Room.Handle
use archforge.Room.Actor
use archforge.Room.Handle.{Room}
use archforge.Room.Manager
use archforge.Room.Manager.Gathering.{gather}
use archforge.Room.Manager.Gathering.Starts.{gather-starts}
use archforge.Room.Manager.Gathering.Told.{gather_snapshot}
use archforge.Checks.Game.{adding}
use archforge.Checks.Rooms.{playing, second, running}

abbrev newcomers : List (PlayerId × PlayerSender)
newcomers = (1, 101) ∷ (2, 102) ∷ []

newcomers-Distinct : HashSet.Distinct (map (λ e. e.0) newcomers)
unfolding HashSet.Distinct elem
newcomers-Distinct = (refl, (refl, tt))

gather-starts_example :
    let (m, rs, _) = gather (Manager.new {g = adding} 7) 0 newcomers in
    (rs ≡ ok 7 ∷ ok 7 ∷ [])
    × (Manager.room_ids m ≡ 7 ∷ [])
    × ((q : PlayerId) → Manager.player_room m q ≡ (if elem q (1 ∷ 2 ∷ []) then some 7 else none))
    × ((room : Room adding) × (HashMap.get 7 m.rooms ≡ some room)
        × (room.actor.state ≡ in_progress)
        × (room.actor.game_state ≡ some 0)
        × ((q : PlayerId) → HashSet.contains q room.actor.players ≡ elem q (1 ∷ 2 ∷ [])))
gather-starts_example =
    gather-starts 7 0 newcomers newcomers-Distinct (omega arith) (omega arith) (omega arith)

abbrev their_room : Room adding
their_room = record { room_id = 7; actor = playing; mailbox = []; stopped = false }

their_room_there :
    HashMap.get 7 (gather (Manager.new {g = adding} 7) 0 newcomers).0.rooms ≡ some their_room
unfolding gather running Manager.new Manager.join_or_create HashMap.keys HashMap.find HashMap.put
    Manager.create_room Manager.join_in Manager.join_new Manager.try_rooms Handle.join Actor.handle
    Handle.get_info
their_room_there = refl

gather_snapshot_example :
    received 102 (gather (Manager.new {g = adding} 7) 0 newcomers).2 ≡ RoomOutbound.state 0 ∷ []
gather_snapshot_example =
    gather_snapshot 7 0 newcomers newcomers-Distinct (omega arith) refl (omega arith) their_room 2
      102 their_room_there second
