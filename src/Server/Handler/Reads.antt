-- ===== src/Server/Handler/Reads.antt =====
-- Only the loop itself reads from the connection.
use Prim.Native.String.{String, ◌++◌ as ◌<>◌}
use archforge.Prelude.{
  ℕ, ◌≡◌, ◌⊎◌, inl, inr, sym, arith, false, List, Option, none, some, Result, ok, err, Option-cases,
  Result-cases, subst,
}
use archforge.Protocol.{
  Envelope, Bytes, PlayerId, RoomId, SystemMessage, Payload, heartbeat, heartbeat_ack, join_room,
  join_or_create, leave_room, list_rooms, room_list, room_joined, disconnect, system, game, error,
}
use archforge.Protocol.Codec.{ProtocolError, protocol_text}
use archforge.Transport.{Connection}
use archforge.Room.State.{RoomError}
use archforge.Room.State.Text.{error_text}
use archforge.Room.Logic.{GameLogic}
use archforge.Room.Actor.{PlayerSender, RoomOutbound, Sends}
use archforge.Room.Manager
use archforge.Room.Manager.{RoomManager}
use archforge.Server.{take_from}
use archforge.Server.Listing.{room_entries}
use archforge.Server.Action.{
  Handler, Action, pure, ◌>>◌, reply, reply_error, next_seq, send_envelope, send_error, encoded,
  transmit, envelope, decoded, millis,
}
use archforge.Server.Handler.{
  into, quietly, on_rooms, new_channel, joined, handle_system_message, routed, handle_decoded,
  handle_game_message, handle_payload, handle_envelope, opened, payload_of, forward_payload,
  forward, forward_next, take_outbound,
}
use archforge.Server.Handler.Rooms.{then_pure}

module _ {g : GameLogic} {c : Connection} where
  -- What the sending of an envelope does to the connection.
  send_envelope-conn :
      (h : Handler g c) (e : Envelope)
      → let h' = (send_envelope e h).0 in
        (h'.conn ≡ h.conn) ⊎ ((b : Bytes) × (h'.conn ≡ (c.send h.conn b).0))
  unfolding send_envelope encoded transmit
  send_envelope-conn h e = elim (Result-cases (h.server.codec.envelope.encode e)) [
    | inr (why, bad) ↦ inl (ground arith)
    | inl (b, good) ↦ elim (Result-cases (c.send h.conn b).1) [
      | inl (u, out) ↦ inr (b, ground arith)
      | inr (why, bad) ↦ inr (b, ground arith)
    ]
  ]

-- `P` is a property of the connection that sending keeps.
module _ {g : GameLogic} {c : Connection} (P : c.Conn → Type 0)
    (keep : (x : c.Conn) (b : Bytes) → P x → P (c.send x b).0) where
  send_envelope-keeps : (h : Handler g c) (e : Envelope) → P h.conn → P (send_envelope e h).0.conn
  send_envelope-keeps h e v = elim (send_envelope-conn h e) [
    | inl same ↦ subst P (sym same) v
    | inr (b, out) ↦ subst P (sym out) (keep h.conn b v)
  ]

  reply-keeps : (h : Handler g c) (now : ℕ) (p : Payload) → P h.conn → P (reply now p h).0.conn
  unfolding reply next_seq
  reply-keeps h now p v = send_envelope-keeps (next_seq h).0 (envelope h.seq now p) v

  reply_error-keeps :
      (h : Handler g c) (now code : ℕ) (text : String)
      → P h.conn
      → P (reply_error now code text h).0.conn
  unfolding reply_error next_seq send_error
  reply_error-keeps h now code text v =
      send_envelope-keeps (next_seq h).0 (envelope h.seq now (system (error code text))) v

  then_pure-keeps :
      {B : Type 0} (m : Action g c (Unit {0})) (b : B) (h : Handler g c)
      → P (m h).0.conn
      → P ((m >> pure b) h).0.conn
  then_pure-keeps m b h v = subst (λ (k : Handler g c). P k.conn) (sym (then_pure m b h)) v

  joined-keeps :
      (h : Handler g c) (now code : ℕ) (tx : PlayerSender) (r : Result RoomError RoomId)
      → P h.conn
      → P (joined now code tx r h).0.conn
  unfolding joined
  joined-keeps h now code tx (ok rid) v =
      let heard = record h { room_rx = some tx } in
      let p = system (room_joined rid "") in
      then_pure-keeps (reply now p) false heard (reply-keeps heard now p v)
  joined-keeps h now code tx (err e) v =
      then_pure-keeps (reply_error now code (error_text e)) false h
        (reply_error-keeps h now code (error_text e) v)

  handle_system_message-keeps :
      (h : Handler g c) (pid : PlayerId) (order : List RoomId) (now now' : ℕ) (m : SystemMessage)
      → P h.conn
      → P (handle_system_message pid order now now' m h).0.conn
  unfolding handle_system_message on_rooms new_channel
  handle_system_message-keeps h pid order now now' (heartbeat t) v =
      let p = system (heartbeat_ack t (millis now')) in
      then_pure-keeps (reply now p) false h (reply-keeps h now p v)
  handle_system_message-keeps h pid order now now' (join_room rid) v =
      let tx = h.server.next_channel in
      let called =
        (on_rooms (λ m. into rid (Manager.join_room m pid rid tx)) (new_channel h).0).0 in
      joined-keeps called now 404 tx (into rid (Manager.join_room h.server.rooms pid rid tx)).1 v
  handle_system_message-keeps h pid order now now' (join_or_create name options) v =
      let tx = h.server.next_channel in
      let call = λ (m : RoomManager g). Manager.join_or_create m order pid g.default_config tx in
      joined-keeps (on_rooms call (new_channel h).0).0 now 409 tx (call h.server.rooms).1 v
  handle_system_message-keeps h pid order now now' list_rooms v =
      let called = (on_rooms (λ m. room_entries m order) h).0 in
      let p = system (room_list (room_entries h.server.rooms order).1) in
      then_pure-keeps (reply now p) false called (reply-keeps called now p v)
  handle_system_message-keeps h pid order now now' leave_room v = v
  handle_system_message-keeps h pid order now now' (disconnect reason) v = v
  handle_system_message-keeps h pid order now now' _ v = v

  routed-keeps :
      (h : Handler g c) (now : ℕ) (r : Result RoomError (Unit {0}))
      → P h.conn
      → P (routed now r h).0.conn
  unfolding routed
  routed-keeps h now (ok _) v = v
  routed-keeps h now (err e) v = reply_error-keeps h now 400 (error_text e) v

  handle_decoded-keeps :
      (h : Handler g c) (pid : PlayerId) (now : ℕ) (r : Result ProtocolError g.ClientMessage)
      → P h.conn
      → P (handle_decoded pid now r h).0.conn
  unfolding handle_decoded on_rooms
  handle_decoded-keeps h pid now (err e) v =
      reply_error-keeps h now 400 ("invalid game message: " <> protocol_text e) v
  handle_decoded-keeps h pid now (ok msg) v =
      let called = (on_rooms (λ m. quietly (Manager.route_message m pid msg)) h).0 in
      routed-keeps called now (Manager.route_message h.server.rooms pid msg).1 v

  handle_payload-keeps :
      (h : Handler g c) (pid : PlayerId) (order : List RoomId) (now now' : ℕ) (p : Payload)
      → P h.conn
      → P (handle_payload pid order now now' p h).0.conn
  unfolding handle_payload handle_game_message decoded
  handle_payload-keeps h pid order now now' (system m) v =
      handle_system_message-keeps h pid order now now' m v
  handle_payload-keeps h pid order now now' (game b) v =
      then_pure-keeps (handle_game_message pid now b) false h
        (handle_decoded-keeps h pid now (h.server.codec.client_message.decode b) v)

  opened-keeps :
      (h : Handler g c) (pid : PlayerId) (order : List RoomId) (now now' : ℕ)
      (e : Result ProtocolError Envelope)
      → P h.conn
      → P (opened pid order now now' e h).0.conn
  unfolding opened
  opened-keeps h pid order now now' (err e) v = v
  opened-keeps h pid order now now' (ok e) v = handle_payload-keeps h pid order now now' e.payload v

  -- What a handler does with the bytes that it has read keeps `P`.
  pub handle_envelope-keeps :
      (h : Handler g c) (pid : PlayerId) (order : List RoomId) (now now' : ℕ) (b : Bytes)
      → P h.conn
      → P (handle_envelope pid order now now' b h).0.conn
  unfolding handle_envelope decoded
  handle_envelope-keeps h pid order now now' b v =
      opened-keeps h pid order now now' (h.server.codec.envelope.decode b) v

  forward_payload-keeps :
      (h : Handler g c) (now : ℕ) (p : Result ProtocolError Payload)
      → P h.conn
      → P (forward_payload now p h).0.conn
  unfolding forward_payload
  forward_payload-keeps h now (err e) v = v
  forward_payload-keeps h now (ok p) v =
      then_pure-keeps (reply now p) false h (reply-keeps h now p v)

  forward_next-keeps :
      (h : Handler g c) (now : ℕ) (next : Option (RoomOutbound g × Sends g))
      → P h.conn
      → P (forward_next now next h).0.conn
  unfolding forward_next forward
  forward_next-keeps h now none v = v
  forward_next-keeps h now (some (out, rest)) v =
      forward_payload-keeps (record h { server = record h.server { inboxes = rest } }) now
        (payload_of h.server.codec out) v

  -- So does the forwarding of a message from a room.
  pub take_outbound-keeps : (h : Handler g c) (now : ℕ) → P h.conn → P (take_outbound now h).0.conn
  unfolding take_outbound
  take_outbound-keeps h now v = elim (Option-cases h.room_rx) [
    | inl deaf ↦ rw (deaf, take_outbound) v
    | inr (rx, e) ↦
        rw (e, take_outbound) (forward_next-keeps h now (take_from rx h.server.inboxes) v)
  ]
