-- ===== src/Checks/Connections.antt =====
-- Connections to the server of the tests.
use archforge.Prelude.{
  ℕ, ◌≡◌, ◌≢◌, refl, ◌<◌, false, List, [], ◌∷◌, some, none, ok, err, arith, length, nat_eq,
  string_eq, map,
}
use archforge.Prelude.HashMap
use archforge.Protocol.{
  PlayerId, Envelope, reliable_ordered, handshake, join_room, join_or_create, room_joined, system,
  leave_room,
}
use archforge.Room.Manager.Invariant.{IsValid as IsSeated}
use archforge.Transport.{websocket}
use archforge.Room.Actor.{RoomOutbound}
use archforge.Room.Manager.Operations
use archforge.Server
use archforge.Server.{ServerState, build}
use archforge.Server.Accepting.{run-ids, accepted, ids_from}
use archforge.Server.Action.{Handler}
use archforge.Server.Guards.{Agree, count, guarded}
use archforge.Server.Handshake.{perform_handshake}
use archforge.Server.Handshake.Answers.{Outcome, LetIn, perform_handshake-Outcome}
use archforge.Server.Handshake.Admission.{perform_handshake-ok}
use archforge.Server.Handler.{
  inbound, outbound, idle, Ended, running, turn, handle_system_message, take_outbound, message_loop,
}
use archforge.Server.Handler.Forwarding.{Forwarded, Out, take_outbound-Forwarded}
use archforge.Server.Handler.Joining.{handle_system_message-Joined}
use archforge.Server.Connection.{fresh_handler, created, guard_drop, handle_connection}
use archforge.Server.Connection.Sessions.{Attended, handle_connection-Attended}
use archforge.Server.Connection.Reading.{numbers, count_from, handle_connection-numbers}
use archforge.Server.Connection.Return.{handle_system_message_return}
use archforge.Server.Connection.Rejoin.{Told, refusal, rejoin-Told}
use archforge.Server.Connection.Endings.{ends_by, message_loop-ends}
use archforge.Server.System.{guarding, greeted, opened, turned, Reach, start, after, IsSound}
use archforge.Server.System.Paths.{Within, handle_connection-Within}
use archforge.Server.System.Built.{built-IsSound}
use archforge.Checks.Game.{adding}
use archforge.Checks.Wire.{codec, envelopes, envelopes-IsInverse}
use archforge.Checks.Wire
use archforge.Checks.Servers.{
  running_server, guest, server, server_built, frames, client, sink, rounds, serving,
}

-- The handler before and after the handshake, and with its session.
abbrev newcomer : Handler adding (websocket sink)
newcomer = fresh_handler server client

abbrev greeting : Handler adding (websocket sink)
greeting = (perform_handshake false 0 1_000_000 newcomer).0

abbrev guest_handler : Handler adding (websocket sink)
guest_handler = (created 5 "abc" greeting).0

-- With the player in a room.
abbrev seated : Handler adding (websocket sink)
seated = (message_loop 5 (inbound [] 2_000_000 3_000_000 ∷ []) guest_handler).0

fresh_token : HashMap.get "abc" greeting.server.sessions.tokens ≡ none
unfolding serving
fresh_token = refl

guests : List PlayerId
guests = guarded 5 (created 5 "abc" greeting).1 []

one_guest : 0 < count 5 guests
unfolding serving guests count guarded
one_guest = omega arith

abbrev path :
    Reach
      (websocket sink)
      3
      (guarding server [])
      (guarding (turn 5 (inbound [] 0 0) guest_handler).0.server guests)
unfolding guests
path =
    after 2 (guarding server []) (guarding greeting.server [])
      (guarding (turn 5 (inbound [] 0 0) guest_handler).0.server guests)
      (greeted newcomer [] false 0 1_000_000)
      (after 1 (guarding greeting.server []) (guarding guest_handler.server guests)
        (guarding (turn 5 (inbound [] 0 0) guest_handler).0.server guests)
        (opened greeting [] 5 "abc")
        (after 0 (guarding guest_handler.server guests)
          (guarding (turn 5 (inbound [] 0 0) guest_handler).0.server guests)
          (guarding (turn 5 (inbound [] 0 0) guest_handler).0.server guests)
          (turned guest_handler guests 5 (inbound [] 0 0) one_guest)
          (start (guarding (turn 5 (inbound [] 0 0) guest_handler).0.server guests))))

built-IsSound_example :
    IsSound (turn 5 (inbound [] 0 0) guest_handler).0.server
    × Agree (turn 5 (inbound [] 0 0) guest_handler).0.server.sessions guests
built-IsSound_example =
    built-IsSound (websocket sink) Server.new (λ addr. ok tt) 1 1 guest codec running_server 3
      (guarding (turn 5 (inbound [] 0 0) guest_handler).0.server guests) path server_built
      (unfold guests in (tt, (fresh_token, (tt, tt)))) (omega arith)

abbrev run_result : Handler adding (websocket sink) × Ended
run_result = handle_connection false 0 1_000_000 "abc" rounds 9 server client

handle_connection-Attended_example :
    Attended server "abc" rounds 9 (perform_handshake false 0 1_000_000 newcomer).1 run_result
handle_connection-Attended_example =
    handle_connection-Attended (websocket sink) false 0 1_000_000 "abc" rounds 9 server client

handle_connection-numbers_example :
    let sent = run_result.0.sent in numbers server.codec.envelope sent ≡ count_from 0 (length sent)
handle_connection-numbers_example =
    handle_connection-numbers (websocket sink) envelopes Wire.numbers Wire.numbers Wire.numbers
      false 0 1_000_000 "abc" rounds 9 server client refl envelopes-IsInverse

no_token : HashMap.get "abc" server.sessions.tokens ≡ none
unfolding serving
no_token = refl

-- The handler of this connection has ended, so that no guard is left.
handle_connection-Within_example :
    Within (websocket sink) 6 (guarding server []) (guarding run_result.0.server [])
unfolding serving
handle_connection-Within_example =
    handle_connection-Within (websocket sink) false 0 1_000_000 "abc" rounds 9 server [] client
      no_token

perform_handshake-Outcome_example :
    let (h', r) = perform_handshake false 0 1_000_000 newcomer in
    Outcome 0 1_000_000 (LetIn newcomer false) newcomer h' r
perform_handshake-Outcome_example = perform_handshake-Outcome 0 1_000_000 newcomer false

abbrev hello : Envelope
hello = record {
  seq = 0;
  timestamp = 0;
  channel = reliable_ordered;
  payload = system (handshake 1 none);
}

perform_handshake-ok_example : (perform_handshake false 0 1_000_000 newcomer).1 ≡ ok 5
unfolding serving
perform_handshake-ok_example =
    perform_handshake-ok 0 1_000_000 newcomer (0 ∷ 0 ∷ 2 ∷ 1 ∷ []) hello none 5
      (0 ∷ 0 ∷ 3 ∷ 5 ∷ 1 ∷ []) refl refl refl refl refl refl

-- The second frame ends the reading, or the timer does.
message_loop-ends_example :
    (message_loop 5 (inbound [] 0 0 ∷ outbound 0 ∷ idle ∷ []) guest_handler).1 ≢ running
message_loop-ends_example =
    message_loop-ends sink guest_handler 5 5 (inbound [] 0 0 ∷ outbound 0 ∷ idle ∷ [])
      (unfold serving in omega arith) (unfold ends_by in refl)

in_the_room : HashMap.get 5 seated.server.rooms.player_rooms ≡ some 1
unfolding serving
in_the_room = refl

rejoin-Told_example :
    let again = fresh_handler {c = websocket sink} (guard_drop 5 9 seated).server client in
    Told again 0 (refusal 5 1 (join_room 1)) (handle_system_message 5 [] 0 0 (join_room 1) again)
rejoin-Told_example = rejoin-Told seated 5 1 9 [] 0 0 (join_room 1) client in_the_room

-- The same player, with nothing but the request for a room.
abbrev guest_in_room : Handler adding (websocket sink)
guest_in_room = (handle_system_message 5 [] 0 0 (join_or_create "" []) newcomer).0

guest_in_room-IsSeated : IsSeated guest_in_room.server.rooms
guest_in_room-IsSeated =
    (handle_system_message-Joined newcomer 5 [] 0 0 "" [] (Operations.new-IsValid 1)
      (unfold serving in refl) (unfold serving in omega arith) (omega arith)).0

guest_has_room : HashMap.get 5 guest_in_room.server.rooms.player_rooms ≡ some 1
unfolding serving
guest_has_room = refl

handle_system_message_return_example :
    let again = fresh_handler {c = websocket sink} (guard_drop 5 9 guest_in_room).server client in
    let (left, r) = handle_system_message 5 [] 0 0 leave_room again in
    let x = handle_system_message 5 (1 ∷ []) 0 0 (join_or_create "" []) left in
    (r ≡ ok false)
    × (left.sent ≡ again.sent)
    × (HashMap.get 5 left.server.rooms.player_rooms ≡ none)
    × IsSeated left.server.rooms
    × IsSeated x.0.server.rooms
    × (x.0.room_rx ≡ some left.server.next_channel)
    × ((rid : ℕ) × (HashMap.get 5 x.0.server.rooms.player_rooms ≡ some rid)
        × Out left 0 (ok (system (room_joined rid ""))) x)
handle_system_message_return_example =
    handle_system_message_return guest_in_room 5 1 9 [] (1 ∷ []) 0 0 "" [] client guest_has_room
      guest_in_room-IsSeated (unfold serving in omega arith) (omega arith)

-- Two messages wait for this handler, and one for another.
abbrev listening : Handler adding (websocket sink)
listening = record newcomer {
  room_rx = some 3;
  server = record server {
    inboxes =
        (4, RoomOutbound.message 9) ∷ (3, RoomOutbound.message 7) ∷ (3, RoomOutbound.state 8) ∷ [];
  };
}

take_outbound-Forwarded_example : Forwarded listening 0 (some 3) (take_outbound 0 listening)
take_outbound-Forwarded_example = take_outbound-Forwarded listening 0

handle_system_message-Joined_example :
    let x = handle_system_message 5 [] 0 0 (join_or_create "" []) newcomer in
    IsSeated x.0.server.rooms
    × (x.0.room_rx ≡ some 0)
    × ((rid : ℕ) × (HashMap.get 5 x.0.server.rooms.player_rooms ≡ some rid)
        × Out newcomer 0 (ok (system (room_joined rid ""))) x)
handle_system_message-Joined_example =
    handle_system_message-Joined newcomer 5 [] 0 0 "" [] (Operations.new-IsValid 1)
      (unfold serving in refl) (unfold serving in omega arith) (omega arith)

run-ids_example :
    let conns = Server.run running_server (ok frames ∷ err "reset" ∷ ok [] ∷ []) in
    (map (λ c. c.incoming) conns ≡ accepted (ok frames ∷ err "reset" ∷ ok [] ∷ []))
    × (map (λ c. c.id) conns ≡ ids_from 1 (length conns))
run-ids_example = run-ids running_server (ok frames ∷ err "reset" ∷ ok [] ∷ []) (omega arith)
