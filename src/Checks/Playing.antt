-- ===== src/Checks/Playing.antt =====
-- Two clients of the server of the tests who play.
use archforge.Prelude.{◌≡◌, refl, [], ◌∷◌, ◌++◌, some, ok, arith, nat_eq, false, length}
use archforge.Prelude.HashMap
use archforge.Transport.{websocket}
use archforge.Room.Actor
use archforge.Room.Actor.{RoomCommand, RoomOutbound}
use archforge.Room.Actor.Delivery.{Owns, received, addressed}
use archforge.Room.State.{in_progress, default_config}
use archforge.Room.Handle
use archforge.Room.Handle.{Room, run}
use archforge.Room.Handle.Mailbox.{serve_many}
use archforge.Room.Manager
use archforge.Room.Manager.{RoomManager}
use archforge.Room.Manager.Invariant.{IsValid}
use archforge.Room.Manager.Operations.{new-IsValid}
use archforge.Room.Manager.Openings.{first_open, join_or_create-first_open}
use archforge.Room.Manager.History.{step, step-IsValid, join_or_create, route_message}
use archforge.Server.Action.{Handler}
use archforge.Server.Handler.{handle_game_message}
use archforge.Server.Connection.{fresh_handler}
use archforge.Server.System.Playing.{handle_game_message-Played}
use archforge.Checks.Game.{adding}
use archforge.Checks.Servers.{server, client, sink, serving}

abbrev one_seated : RoomManager adding
one_seated = step (Manager.new 1) (join_or_create [] 5 0 105)

abbrev both_seated : RoomManager adding
both_seated = step one_seated (join_or_create (1 ∷ []) 6 0 106)

-- A message of player 6 waits in the channel of the room.
abbrev one_posted : RoomManager adding
one_posted = step both_seated (route_message 6 3)

one_seated-IsValid : IsValid one_seated
unfolding serving step
one_seated-IsValid =
    (step-IsValid (Manager.new 1) (join_or_create [] 5 0 105) (new-IsValid 1) (omega arith)).0

join_or_create-first_open_example :
    let (m, answer, _) = Manager.join_or_create one_seated (1 ∷ []) 6 0 106 in
    (answer ≡ ok 1) × (HashMap.get 6 m.player_rooms ≡ some 1) × (m.next_room_id ≡ 2)
unfolding serving step first_open run
join_or_create-first_open_example =
    join_or_create-first_open 6 106 one_seated (1 ∷ []) 0 one_seated-IsValid refl (omega arith)
      (omega arith)

one_posted-IsValid : IsValid one_posted
unfolding serving step
one_posted-IsValid =
    let (v, next) =
      step-IsValid (Manager.new 1) (join_or_create [] 5 0 105) (new-IsValid 1) (omega arith) in
    let (w, more) =
      step-IsValid one_seated (join_or_create (1 ∷ []) 6 0 106) v (omega (arith, next)) in
    (step-IsValid both_seated (route_message 6 3) w (omega (arith, next, more))).0

-- Their room.
abbrev table : Room adding
table = record {
  room_id = 1;
  actor = record {
    room_id = 1;
    state = in_progress;
    config = default_config;
    players = record { members = 6 ∷ 5 ∷ [] };
    senders = record { entries = (5, 105) ∷ (6, 106) ∷ [] };
    game_state = some 0;
    game_config = 0;
  };
  mailbox = RoomCommand.message 6 3 ∷ [];
  stopped = false;
}

at_the_table : HashMap.get 1 one_posted.rooms ≡ some table
unfolding serving step Handle.get_info Handle.send_message Manager.route_message
at_the_table = refl

seated_there : HashMap.get 5 one_posted.player_rooms ≡ some 1
unfolding serving step Handle.get_info Handle.send_message Manager.route_message
seated_there = refl

table_plays : (run table.actor table.mailbox).0.game_state ≡ some 3
unfolding serving run
table_plays = refl

sixth : Owns (run table.actor table.mailbox).0 6 106
unfolding serving run
sixth = record { channel = refl; only = λ q h. ground arith }

-- The snapshot of the start still waits for player 6.
abbrev at_play : Handler adding (websocket sink)
at_play =
    fresh_handler (record server { rooms = one_posted; inboxes = (106, RoomOutbound.state 0) ∷ [] })
      client

handle_game_message-Played_example :
    let (h', answer) = handle_game_message 5 0 (4 ∷ []) at_play in
    (answer ≡ ok tt)
    × (h'.sent ≡ [])
    × ((room' : Room adding) × (HashMap.get 1 h'.server.rooms.rooms ≡ some room')
        × (let (later, sends) = serve_many (length room'.mailbox) room' in
            (later.actor.game_state ≡ some 7)
            × (received 106 (h'.server.inboxes ++ sends)
                ≡ RoomOutbound.state 0 ∷ RoomOutbound.message 3 ∷ RoomOutbound.message 4 ∷ [])))
unfolding received addressed serving run Actor.dispatch_to Actor.send_each Actor.send_to
handle_game_message-Played_example =
    handle_game_message-Played at_play 5 0 (4 ∷ []) 4 1 table 3 6 106 (unfold serving in refl)
      one_posted-IsValid seated_there at_the_table table_plays sixth
