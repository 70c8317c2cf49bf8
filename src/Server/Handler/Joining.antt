-- ===== src/Server/Handler/Joining.antt =====
-- A client that asks for any room.
use archforge.Prelude.{
  ℕ, suc, ◌<◌, ◌^◌, ◌≡◌, ◌∙◌, sym, subst, ap, Bool, false, List, none, some, Result, ok, arith,
  nat_eq, String,
}
use archforge.Prelude.HashMap
use archforge.Protocol.{Bytes, PlayerId, RoomId, Payload, join_or_create, room_joined, system}
use archforge.Transport.{Connection}
use archforge.Room.State.{RoomError}
use archforge.Room.Logic.{GameLogic}
use archforge.Room.Actor.{PlayerSender}
use archforge.Room.Manager
use archforge.Room.Manager.{RoomManager}
use archforge.Room.Manager.Invariant.{IsValid}
use archforge.Room.Manager.Matchmaking.{join_or_create_seats}
use archforge.Server.{ArcforgeError}
use archforge.Server.Action.{Handler, reply, next_seq, send_envelope, encoded, transmit}
use archforge.Server.Handler.{on_rooms, new_channel, joined, handle_system_message}
use archforge.Server.Handler.Rooms.{reply-server, then_pure}
use archforge.Server.Handler.Forwarding.{Out, reply-Out}

module _ {g : GameLogic} {c : Connection} where
  reply-room_rx : (h : Handler g c) (now : ℕ) (p : Payload) → (reply now p h).0.room_rx ≡ h.room_rx
  unfolding reply next_seq send_envelope encoded transmit
  reply-room_rx h now p = ground arith

  -- The handler listens to the channel `tx`, and the client is told the room, if that can be encoded
  -- and sent.
  abbrev pub Joined :
      Handler g c → ℕ → PlayerSender → RoomId → Handler g c × Result ArcforgeError Bool → Type 0
  Joined h now tx rid x =
      (x.0.room_rx ≡ some tx)
      × (x.0.server ≡ h.server)
      × Out h now (ok (system (room_joined rid ""))) x

  joined-Joined :
      (h : Handler g c) (now code : ℕ) (tx : PlayerSender) (r : Result RoomError RoomId)
      (rid : RoomId)
      → r ≡ ok rid
      → Joined h now tx rid (joined now code tx r h)
  unfolding joined
  joined-Joined h now code tx r rid e =
      let heard = record h { room_rx = some tx } in
      let p = system (room_joined rid "") in
      let told = then_pure (reply now p) false heard in
      subst (λ r. Joined h now tx rid (joined now code tx r h)) (sym e)
        (
          ap (λ k. k.room_rx) told ∙ reply-room_rx heard now p,
          ap (λ k. k.server) told ∙ reply-server heard now p,
          reply-Out heard now p,
        )

  -- A client whose player is in no room and that asks for any room gets one, whatever the order in
  -- which the rooms are visited: the index then holds the room for the player, the manager's index and
  -- rooms still agree, the handler listens to a channel made for it, and the client is told the room
  -- under the handler's number and the handler goes on; only if that cannot be encoded, or the
  -- connection does not take it, nothing is sent, and the handler ends in that error. This holds if the manager's index and rooms agreed, the counter of room ids does not wrap, and the game
  -- lets at least one player into a room.
  pub handle_system_message-Joined :
      (h : Handler g c) (pid : PlayerId) (order : List RoomId) (now now' : ℕ) (name : String)
      (options : Bytes)
      → IsValid h.server.rooms
      → HashMap.get pid h.server.rooms.player_rooms ≡ none
      → suc h.server.rooms.next_room_id < 2 ^ 64
      → 0 < g.room_config.max_players
      → let x = handle_system_message pid order now now' (join_or_create name options) h in
        IsValid x.0.server.rooms
        × (x.0.room_rx ≡ some h.server.next_channel)
        × ((rid : RoomId) × (HashMap.get pid x.0.server.rooms.player_rooms ≡ some rid)
            × Out h now (ok (system (room_joined rid ""))) x)
  unfolding handle_system_message on_rooms new_channel
  handle_system_message-Joined h pid order now now' name options v alone room positive =
      let tx = h.server.next_channel in
      let call = λ (m : RoomManager g). Manager.join_or_create m order pid g.default_config tx in
      let (w, (rid, got, seated)) =
        join_or_create_seats pid tx h.server.rooms order g.default_config v alone room positive in
      let called = (on_rooms call (new_channel h).0).0 in
      let (listens, same, out) = joined-Joined called now 409 tx (call h.server.rooms).1 rid got in
      (
        subst (λ s. IsValid s.rooms) (sym same) w,
        listens,
        (rid, ap (λ s. HashMap.get pid s.rooms.player_rooms) same ∙ seated, out),
      )
