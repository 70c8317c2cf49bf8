-- ===== src/Server/Handler/Rooms.antt =====
-- What a round of a handler does to the rooms and to the sessions.
use archforge.Prelude.{
  ℕ, ◌≡◌, refl, ap, ◌∙◌, ◌⊎◌, inl, inr, false, List, Option, none, some, Result, ok, err, String,
  arith, Option-cases,
}
use archforge.Protocol.{
  Envelope, Bytes, PlayerId, RoomId, SystemMessage, Payload, heartbeat, heartbeat_ack, join_room,
  join_or_create, leave_room, list_rooms, room_list, room_joined, disconnect, system, game, error,
}
use Prim.Native.String.{◌++◌ as ◌<>◌}
use archforge.Protocol.Codec.{ProtocolError, protocol_text}
use archforge.Transport.{Connection, TransportError}
use archforge.Room.State.{RoomError}
use archforge.Room.State.Text.{error_text}
use archforge.Room.Logic.{GameLogic}
use archforge.Room.Actor.{PlayerSender, RoomOutbound, Sends}
use archforge.Room.Manager
use archforge.Room.Manager.{RoomManager}
use archforge.Room.Manager.History.{Call, step}
use archforge.Server.Listing.{room_entries, room_entries-list_rooms}
use archforge.Server.{take_from}
use archforge.Server.Action.{
  Handler, Action, pure, ◌>>◌, reply, reply_error, next_seq, send_envelope, send_error, encoded,
  transmit, envelope, receive, decoded, millis,
}
use archforge.Server.Handler.{
  Ready, inbound, outbound, idle, into, quietly, on_rooms, new_channel, joined,
  handle_system_message, routed, handle_decoded, handle_game_message, handle_payload,
  handle_envelope, opened, handle_received, payload_of, forward_payload, forward, forward_next,
  take_outbound, turn,
}

module _ {g : GameLogic} where
  -- The rooms are as they were, or as one call of the manager leaves them.
  abbrev pub Served : RoomManager g → RoomManager g → Type 0
  Served m m' = (m' ≡ m) ⊎ ((call : Call g) × (m' ≡ step m call))

  into-step :
      (rid : RoomId) (x : RoomManager g × Result RoomError (Unit {0}) × Sends g)
      → (into rid x).0 ≡ x.0
  into-step rid (m, ok _, s) = refl
  into-step rid (m, err e, s) = refl

module _ {g : GameLogic} {c : Connection} where
  pub send_envelope-server :
      (h : Handler g c) (e : Envelope) → (send_envelope e h).0.server ≡ h.server
  unfolding send_envelope encoded transmit
  send_envelope-server h e = ground arith

  pub reply-server : (h : Handler g c) (now : ℕ) (p : Payload) → (reply now p h).0.server ≡ h.server
  unfolding reply next_seq
  reply-server h now p = send_envelope-server (next_seq h).0 (envelope h.seq now p)

  reply_error-server :
      (h : Handler g c) (now code : ℕ) (text : String)
      → (reply_error now code text h).0.server ≡ h.server
  unfolding reply_error next_seq send_error
  reply_error-server h now code text =
      send_envelope-server (next_seq h).0 (envelope h.seq now (system (error code text)))

  -- A round leaves the sessions alone, and makes at most one call of the manager.
  abbrev pub Round : Handler g c → Handler g c → Type 0
  Round h h' = (h'.server.sessions ≡ h.server.sessions) × Served h.server.rooms h'.server.rooms

  -- A part of a round that does nothing to either.
  abbrev Quiet : Handler g c → Handler g c → Type 0
  Quiet h h' = (h'.server.sessions ≡ h.server.sessions) × (h'.server.rooms ≡ h.server.rooms)

  joined-Quiet :
      (h : Handler g c) (now code : ℕ) (tx : PlayerSender) (r : Result RoomError RoomId)
      → Quiet h (joined now code tx r h).0
  unfolding joined
  joined-Quiet h now code tx (ok rid) =
      ground
        (arith, reply-server (record h { room_rx = some tx }) now (system (room_joined rid "")))
  joined-Quiet h now code tx (err e) = ground (arith, reply_error-server h now code (error_text e))

  routed-Quiet :
      (h : Handler g c) (now : ℕ) (r : Result RoomError (Unit {0})) → Quiet h (routed now r h).0
  unfolding routed
  routed-Quiet h now (ok _) = (refl, refl)
  routed-Quiet h now (err e) = ground (arith, reply_error-server h now 400 (error_text e))

  handle_system_message-Round :
      (h : Handler g c) (pid : PlayerId) (order : List RoomId) (now now' : ℕ) (m : SystemMessage)
      → Round h (handle_system_message pid order now now' m h).0
  unfolding handle_system_message on_rooms new_channel step
  handle_system_message-Round h pid order now now' (heartbeat t) =
      let e = reply-server h now (system (heartbeat_ack t (millis now'))) in
      (ground (arith, e), inl (ground (arith, e)))
  handle_system_message-Round h pid order now now' (join_room rid) =
      let tx = h.server.next_channel in
      let x = Manager.join_room h.server.rooms pid rid tx in
      let called =
        (on_rooms (λ m. into rid (Manager.join_room m pid rid tx)) (new_channel h).0).0 in
      let (s, m) = joined-Quiet called now 404 tx (into rid x).1 in
      (s, inr (Call.join_room pid rid tx, m ∙ into-step rid x))
  handle_system_message-Round h pid order now now' (join_or_create name options) =
      let tx = h.server.next_channel in
      let x = Manager.join_or_create h.server.rooms order pid g.default_config tx in
      let called =
        (on_rooms (λ m. Manager.join_or_create m order pid g.default_config tx)
          (new_channel h).0).0 in
      let (s, m) = joined-Quiet called now 409 tx x.1 in
      (s, inr (Call.join_or_create order pid g.default_config tx, m))
  handle_system_message-Round h pid order now now' list_rooms =
      let called = (on_rooms (λ m. room_entries m order) h).0 in
      let entries = (room_entries h.server.rooms order).1 in
      let e = reply-server called now (system (room_list entries)) in
      let same = ap (λ x. x.0) (room_entries-list_rooms h.server.rooms order) in
      (ground (arith, e), inr (Call.list_rooms order, ground (arith, e, same)))
  handle_system_message-Round h pid order now now' leave_room =
      (refl, inr (Call.leave_room pid, refl))
  handle_system_message-Round h pid order now now' (disconnect reason) = (refl, inl refl)
  handle_system_message-Round h pid order now now' _ = (refl, inl refl)

  handle_decoded-Round :
      (h : Handler g c) (pid : PlayerId) (now : ℕ) (r : Result ProtocolError g.ClientMessage)
      → Round h (handle_decoded pid now r h).0
  unfolding handle_decoded on_rooms step
  handle_decoded-Round h pid now (err e) =
      let same = reply_error-server h now 400 ("invalid game message: " <> protocol_text e) in
      (ground (arith, same), inl (ground (arith, same)))
  handle_decoded-Round h pid now (ok msg) =
      let called = (on_rooms (λ m. quietly (Manager.route_message m pid msg)) h).0 in
      let (s, m) = routed-Quiet called now (Manager.route_message h.server.rooms pid msg).1 in
      (s, inr (Call.route_message pid msg, m))

  pub then_pure :
      {B : Type 0} (m : Action g c (Unit {0})) (b : B) (h : Handler g c)
      → ((m >> pure b) h).0 ≡ (m h).0
  then_pure m b h = ground arith

  handle_payload-Round :
      (h : Handler g c) (pid : PlayerId) (order : List RoomId) (now now' : ℕ) (p : Payload)
      → Round h (handle_payload pid order now now' p h).0
  unfolding handle_payload handle_game_message decoded
  handle_payload-Round h pid order now now' (system m) =
      handle_system_message-Round h pid order now now' m
  handle_payload-Round h pid order now now' (game b) =
      rw (then_pure (handle_game_message pid now b) false h)
        (handle_decoded-Round h pid now (h.server.codec.client_message.decode b))

  opened-Round :
      (h : Handler g c) (pid : PlayerId) (order : List RoomId) (now now' : ℕ)
      (e : Result ProtocolError Envelope)
      → Round h (opened pid order now now' e h).0
  unfolding opened
  opened-Round h pid order now now' (err e) = (refl, inl refl)
  opened-Round h pid order now now' (ok e) = handle_payload-Round h pid order now now' e.payload

  handle_received-Round :
      (h : Handler g c) (pid : PlayerId) (order : List RoomId) (now now' : ℕ)
      (r : Result TransportError (Option Bytes))
      → Round h (handle_received pid order now now' r h).0
  unfolding handle_received handle_envelope decoded
  handle_received-Round h pid order now now' (ok (some b)) =
      opened-Round h pid order now now' (h.server.codec.envelope.decode b)
  handle_received-Round h pid order now now' (ok none) = (refl, inl refl)
  handle_received-Round h pid order now now' (err e) = (refl, inl refl)

  forward_payload-server :
      (h : Handler g c) (now : ℕ) (p : Result ProtocolError Payload)
      → (forward_payload now p h).0.server ≡ h.server
  unfolding forward_payload
  forward_payload-server h now (err e) = refl
  forward_payload-server h now (ok p) = rw (then_pure (reply now p) false h) (reply-server h now p)

  forward_next-Round :
      (h : Handler g c) (now : ℕ) (next : Option (RoomOutbound g × Sends g))
      → Round h (forward_next now next h).0
  unfolding forward_next forward
  forward_next-Round h now none = (refl, inl refl)
  forward_next-Round h now (some (out, rest)) =
      let p = payload_of h.server.codec out in
      let e =
        forward_payload-server (record h { server = record h.server { inboxes = rest } }) now p in
      (ground (arith, e), inl (ground (arith, e)))

  -- A round of the loop leaves the sessions as they are, and the rooms too, but for at most one call
  -- of the room manager.
  pub turn-Round : (h : Handler g c) (pid : PlayerId) (r : Ready) → Round h (turn pid r h).0
  unfolding turn receive take_outbound
  turn-Round h pid (inbound order now now') =
      let (conn, r) = c.recv h.conn in
      handle_received-Round (record h { conn = conn }) pid order now now' r
  turn-Round h pid (outbound now) = elim (Option-cases h.room_rx) [
    | inl deaf ↦ rw (deaf, take_outbound) (refl, inl refl)
    | inr (rx, e) ↦ rw (e, take_outbound) (forward_next-Round h now (take_from rx h.server.inboxes))
  ]
  turn-Round h pid idle = (refl, inl refl)
