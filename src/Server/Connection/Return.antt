-- ===== src/Server/Connection/Return.antt =====
-- A player who comes back to a room, leaves it and asks for a room again.
use archforge.Prelude.{
  ℕ, suc, ◌<◌, ◌^◌, ◌≡◌, refl, sym, subst, false, List, none, some, ok, String, nat_eq,
}
use archforge.Prelude.HashMap
use archforge.Protocol.{Bytes, PlayerId, RoomId, leave_room, join_or_create, room_joined, system}
use archforge.Transport.{Connection}
use archforge.Session.{Instant}
use archforge.Room.Logic.{GameLogic}
use archforge.Room.Manager.Invariant.{IsValid}
use archforge.Room.Manager.Operations.{leave_room-ok, leave_room-IsValid}
use archforge.Room.Manager.History.{leave_room-next}
use archforge.Server.Action.{Handler}
use archforge.Server.Handler.{on_rooms, handle_system_message}
use archforge.Server.Handler.Forwarding.{Out}
use archforge.Server.Handler.Joining.{handle_system_message-Joined}
use archforge.Server.Connection.{guard_drop, fresh_handler}

module _ {g : GameLogic} {c : Connection} where
  -- When the handler of a player who is in a room has ended, and the player connects again, then
  -- LeaveRoom takes the player out of the room and out of the index, which still agree, with no
  -- message to the client, and the loop goes on. If the client then asks for any room, the player is
  -- in a room again, whatever the order in which the rooms are visited, the manager's index and
  -- rooms agree, the new handler listens to a channel made for it, and the client is told the room
  -- and the handler goes on; only if that cannot be encoded, or the connection does not take it,
  -- nothing is sent, and the handler ends in that error. This holds if the manager's index and rooms
  -- agreed, the counter of room ids does not wrap, and the game lets at least one player into a
  -- room.
  pub handle_system_message_return :
      (h : Handler g c) (pid : PlayerId) (rid : RoomId) (at : Instant) (order order' : List RoomId)
      (now now' : ℕ) (name : String) (options : Bytes) (conn : c.Conn)
      → HashMap.get pid h.server.rooms.player_rooms ≡ some rid
      → IsValid h.server.rooms
      → suc h.server.rooms.next_room_id < 2 ^ 64
      → 0 < g.room_config.max_players
      → let again = fresh_handler {c = c} (guard_drop pid at h).server conn in
        let (left, r) = handle_system_message pid order now now' leave_room again in
        let x = handle_system_message pid order' now now' (join_or_create name options) left in
        (r ≡ ok false)
        × (left.sent ≡ again.sent)
        × (HashMap.get pid left.server.rooms.player_rooms ≡ none)
        × IsValid left.server.rooms
        × IsValid x.0.server.rooms
        × (x.0.room_rx ≡ some left.server.next_channel)
        × ((rid' : RoomId) × (HashMap.get pid x.0.server.rooms.player_rooms ≡ some rid')
            × Out left now (ok (system (room_joined rid' ""))) x)
  unfolding guard_drop
  handle_system_message_return h pid rid at order order' now now' name options conn into v room
        positive =
      let again = fresh_handler {c = c} (guard_drop pid at h).server conn in
      let left = (handle_system_message pid order now now' leave_room again).0 in
      let gone : HashMap.get pid left.server.rooms.player_rooms ≡ none =
        unfold handle_system_message on_rooms in (leave_room-ok v pid rid into).1 in
      let w : IsValid left.server.rooms =
        unfold handle_system_message on_rooms in leave_room-IsValid v pid in
      let same : left.server.rooms.next_room_id ≡ h.server.rooms.next_room_id =
        unfold handle_system_message on_rooms in leave_room-next h.server.rooms pid in
      let (x, listens, joined) =
        handle_system_message-Joined left pid order' now now' name options w gone
          (subst (λ k. suc k < 2 ^ 64) (sym same) room) positive in
      (
        unfold handle_system_message on_rooms in refl,
        unfold handle_system_message on_rooms in refl,
        gone,
        w,
        x,
        listens,
        joined,
      )
