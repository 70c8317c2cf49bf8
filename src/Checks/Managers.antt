-- ===== src/Checks/Managers.antt =====
-- The manager and the mailbox, with the game of the tests.
use archforge.Prelude.{
  ok, err, none, true, every, ℕ, ◌≡◌, refl, List, [], ◌∷◌, nat_eq, some, false, arith,
}
use archforge.Room.Actor.{RoomCommand, handle, get_state}
use archforge.Room.Handle.{Room, request, serve}
use archforge.Room.State.{destroying, unavailable}
use archforge.Room.Handle.Mailbox.{in_order, request-shutdown}
use archforge.Room.Manager
use archforge.Room.Manager.{RoomManager, new}
use archforge.Room.Manager.Invariant.{in_room}
use archforge.Room.Manager.History.{Call, step, run, run-one_room, join_or_create, route_message}
use archforge.Room.Manager.Seating.{perform_all, effects, AllEnabled}
use archforge.Room.Manager.Seating.Steps.{run-Seating}
use archforge.Checks.Game.{adding}
use archforge.Checks.Rooms.{playing, running}
use archforge.Room.Handle

abbrev busy : Room adding
busy = record {
  room_id = 7;
  actor = playing;
  mailbox = RoomCommand.message 1 4 ∷ RoomCommand.message 2 5 ∷ [];
  stopped = false;
}

request-shutdown_example :
    let (r', answer) = Handle.shutdown busy in
    let (r'', reply, sends) = request r' get_state in
    let (b, early) = in_order playing (RoomCommand.message 1 4 ∷ RoomCommand.message 2 5 ∷ []) in
    (answer ≡ ok tt)
    × (reply ≡ none)
    × (sends ≡ early)
    × (r''.actor ≡ record b { state = destroying })
    × (r''.stopped ≡ true)
    × (r''.mailbox ≡ [])
    × (Handle.join r'' 1 105 ≡ (r'', err (unavailable 7), []))
    × (Handle.leave_room r'' 1 ≡ (r'', err (unavailable 7), []))
    × (Handle.get_info r'' ≡ (r'', err (unavailable 7), []))
    × (Handle.send_message r'' 1 3 ≡ (r'', err (unavailable 7)))
request-shutdown_example = request-shutdown busy get_state 1 105 3 refl (unfold every in refl)

abbrev fresh_manager : RoomManager adding
fresh_manager = new 1

abbrev calls : List (Call adding)
calls = join_or_create [] 5 0 105 ∷ join_or_create (1 ∷ []) 6 0 106 ∷ route_message 5 4 ∷ []

-- Two players in one room, a message on the way.
here : in_room (run (new 1) calls) 6 1 ≡ true
unfolding running run step new in_room Manager.join_or_create Manager.route_message
    Manager.try_rooms Manager.join_new Handle.join Handle.get_info Handle.send_message handle
here = refl

run-one_room_example : ◌≡◌ {A = ℕ} 1 1 × (Manager.player_room (run (new 1) calls) 6 ≡ some 1)
run-one_room_example = run-one_room calls 6 1 1 (omega arith) here here

run-Seating_example :
    ((q : ℕ)
      → Manager.player_room (run fresh_manager calls) q
        ≡ perform_all (effects fresh_manager calls) (Manager.player_room fresh_manager) q)
    × AllEnabled (effects fresh_manager calls) (Manager.player_room fresh_manager)
run-Seating_example = run-Seating fresh_manager calls
