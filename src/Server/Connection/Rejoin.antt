-- ===== src/Server/Connection/Rejoin.antt =====
-- A player who comes back to a room.
use archforge.Prelude.{
  ℕ, suc, ◌≡◌, ◌∙◌, ap, Bool, Result, inl, inr, false, String, List, [], ◌++◌, Option, none, some,
  ok, err, arith, ◌==◌, if◌then◌else◌, nat_eq, Bool-cases,
}
use archforge.Prelude.HashMap
use archforge.Protocol.{PlayerId, RoomId, SystemMessage, join_room, join_or_create, system, error}
use archforge.Transport.{Connection}
use archforge.Session.{Instant}
use archforge.Room.State.{RoomError, already_in_room, invalid_state, already_in}
use archforge.Room.State.Text.{error_text}
use archforge.Room.Logic.{GameLogic}
use archforge.Room.Actor.{PlayerSender}
use archforge.Room.Manager
use archforge.Room.Manager.{RoomManager}
use archforge.Server.Action.{
  Handler, ◌>>◌, pure, reply_error, next_seq, send_envelope, send_error, encoded, transmit,
  envelope,
}
use archforge.Server.Action.Sending.{send_envelope-Put}
use archforge.Server.Handler.{on_rooms, new_channel, joined, handle_system_message}
use archforge.Server.{ArcforgeError}
use archforge.Server.Handler.Forwarding.{Out, send_envelope-Out}
use archforge.Server.Handler.Rooms.{then_pure}
use archforge.Server.Connection.{guard_drop, fresh_handler}

-- What a player in the room `rid` is told on asking for a room.
abbrev pub refusal : PlayerId → RoomId → SystemMessage → Option (ℕ × RoomError)
refusal pid rid (join_room r) =
    some (404, if rid == r then already_in_room pid r else invalid_state (already_in pid rid))
refusal pid rid (join_or_create name options) = some (409, invalid_state (already_in pid rid))
refusal pid rid _ = none

module _ {g : GameLogic} where
  join_room-seated :
      (m : RoomManager g) (pid : PlayerId) (rid r : RoomId) (tx : PlayerSender)
      → HashMap.get pid m.player_rooms ≡ some rid
      → Manager.join_room m pid r tx ≡ (
        m,
        err (if rid == r then already_in_room pid r else invalid_state (already_in pid rid)),
        [],
      )
  unfolding Manager.join_room
  join_room-seated m pid rid r tx there = elim (Bool-cases (rid == r)) [
    | inl same ↦ rw (there, Manager.join_room, same)
    | inr other ↦ rw (there, Manager.join_room, other)
  ]

  join_or_create-seated :
      (m : RoomManager g) (order : List RoomId) (pid : PlayerId) (rid : RoomId) (tx : PlayerSender)
      → HashMap.get pid m.player_rooms ≡ some rid
      → Manager.join_or_create m order pid g.default_config tx
        ≡ (m, err (invalid_state (already_in pid rid)), [])
  unfolding Manager.join_or_create
  join_or_create-seated m order pid rid tx there = rw (there, Manager.join_or_create)

module _ {g : GameLogic} {c : Connection} where
  reply_error-room_rx :
      (h : Handler g c) (now code : ℕ) (text : String)
      → (reply_error now code text h).0.room_rx ≡ h.room_rx
  unfolding reply_error next_seq send_error send_envelope encoded transmit
  reply_error-room_rx h now code text = ground arith

  reply_error-server :
      (h : Handler g c) (now code : ℕ) (text : String)
      → (reply_error now code text h).0.server ≡ h.server
  unfolding reply_error next_seq send_error
  reply_error-server h now code text =
      (send_envelope-Put (next_seq h).0 (envelope h.seq now (system (error code text)))).1

  -- The handler listens to what it listened to, the rooms are as they were, and the error goes out
  -- under the handler's number and the handler goes on; or the error cannot be encoded or sent, and the
  -- handler ends in that.
  abbrev pub Refused :
      Handler g c → ℕ → ℕ → RoomError → Handler g c × Result ArcforgeError Bool → Type 0
  Refused h now code e x =
      (x.0.room_rx ≡ h.room_rx)
      × (x.0.server.rooms ≡ h.server.rooms)
      × Out h now (ok (system (error code (error_text e)))) x

  -- What follows from what the player is told, if there is something.
  abbrev pub Told :
      Handler g c → ℕ → Option (ℕ × RoomError) → Handler g c × Result ArcforgeError Bool → Type 0
  Told h now none x = Unit {0}
  Told h now (some (code, e)) x = Refused h now code e x

  reply_error-Out :
      (h : Handler g c) (now code : ℕ) (text : String)
      → Out h now (ok (system (error code text))) ((reply_error now code text >> pure false) h)
  unfolding reply_error next_seq send_error
  reply_error-Out h now code text = send_envelope-Out h now (system (error code text))

  -- The answer to a join that the manager refuses.
  joined-Refused :
      (h : Handler g c) (now code : ℕ) (tx : PlayerSender) (e : RoomError)
      → Refused h now code e (joined now code tx (err e) h)
  unfolding joined
  joined-Refused h now code tx e =
      let same = then_pure (reply_error now code (error_text e)) false h in
      (
        ap (λ k. k.room_rx) same ∙ reply_error-room_rx h now code (error_text e),
        ap (λ k. k.server.rooms) same
            ∙ ap (λ s. s.rooms) (reply_error-server h now code (error_text e)),
        reply_error-Out h now code (error_text e),
      )

  -- A handler that asked for a room: a channel was made for it, and nothing was sent.
  abbrev asked : Handler g c → Handler g c
  asked h = record h {
    server = record h.server {
      next_channel = suc h.server.next_channel;
      inboxes = h.server.inboxes ++ [];
    };
  }

  handle_system_message-Told :
      (h : Handler g c) (pid : PlayerId) (rid : RoomId) (order : List RoomId) (now now' : ℕ)
      (m : SystemMessage)
      → HashMap.get pid h.server.rooms.player_rooms ≡ some rid
      → Told h now (refusal pid rid m) (handle_system_message pid order now now' m h)
  unfolding handle_system_message on_rooms new_channel
  handle_system_message-Told h pid rid order now now' (join_room r) there =
      let tx = h.server.next_channel in
      let e = if rid == r then already_in_room pid r else invalid_state (already_in pid rid) in
      rw (join_room-seated h.server.rooms pid rid r tx there)
        (joined-Refused (asked h) now 404 tx e)
  handle_system_message-Told h pid rid order now now' (join_or_create name options) there =
      let tx = h.server.next_channel in
      rw (join_or_create-seated h.server.rooms order pid rid tx there)
        (joined-Refused (asked h) now 409 tx (invalid_state (already_in pid rid)))
  handle_system_message-Told h pid rid order now now' _ there = tt

  pub rejoin-Told :
      (h : Handler g c) (pid : PlayerId) (rid : RoomId) (at : Instant) (order : List RoomId)
      (now now' : ℕ) (m : SystemMessage) (conn : c.Conn)
      → HashMap.get pid h.server.rooms.player_rooms ≡ some rid
      → let again = fresh_handler {c = c} (guard_drop pid at h).server conn in
        Told again now (refusal pid rid m) (handle_system_message pid order now now' m again)
  unfolding guard_drop
  rejoin-Told h pid rid at order now now' m conn there =
      handle_system_message-Told (fresh_handler (guard_drop pid at h).server conn) pid rid order now
        now' m there
