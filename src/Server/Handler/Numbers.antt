-- ===== src/Server/Handler/Numbers.antt =====
-- What a handler sends, and how it is numbered.
use archforge.Prelude.{
  ◌+◌, ◌%◌, ◌^◌, ◌++◌, Result-cases, is_ok, if◌then◌else◌, ℕ, ◌≡◌, refl, ◌⊎◌, inl, inr, Bool, false,
  List, [], ◌∷◌, Option, none, some, Result, ok, err, String, arith, Option-cases,
}
use archforge.Protocol.{
  Envelope, Bytes, PlayerId, RoomId, SystemMessage, Payload, heartbeat, heartbeat_ack, join_room,
  join_or_create, leave_room, list_rooms, room_list, room_joined, disconnect, system, game, error,
}
use Prim.Native.String.{◌++◌ as ◌<>◌}
use archforge.Protocol.Codec.{ProtocolError, protocol_text}
use archforge.Transport.{Connection, TransportError}
use archforge.Room.State.{RoomError}
use archforge.Room.State.Text.{error_text}
use archforge.Room.Logic.{GameLogic}
use archforge.Room.Actor.{PlayerSender, RoomOutbound, Sends}
use archforge.Room.Manager
use archforge.Room.Manager.{RoomManager}
use archforge.Server.Listing.{room_entries}
use archforge.Server.{take_from}
use archforge.Server.Action.{
  Handler, Action, pure, ◌>>◌, reply, reply_error, next_seq, send_error, envelope, receive, decoded,
  millis,
}
use archforge.Server.Handler.{
  Ready, inbound, outbound, idle, into, quietly, on_rooms, new_channel, joined,
  handle_system_message, routed, handle_decoded, handle_game_message, handle_payload,
  handle_envelope, opened, handle_received, payload_of, forward_payload, forward, forward_next,
  take_outbound, turn,
}
use archforge.Server.Handler.Rooms.{then_pure}
use archforge.Server.Action.Sending.{send_envelope-Put}

module _ {g : GameLogic} {c : Connection} where
  -- At most one envelope goes out, under the number of the handler, which then counts on; the number
  -- of a handler that fails is of no use any more.
  abbrev pub Wrote : Handler g c → Handler g c → Bool → Type 0
  Wrote h h' good =
      (h'.server.codec ≡ h.server.codec)
      × (((h'.sent ≡ h.sent) × (if good then (h'.seq ≡ h.seq) else (Unit {0})))
          ⊎ ((b : Bytes) × (e : Envelope) × (h.server.codec.envelope.encode e ≡ ok b)
              × (e.seq ≡ h.seq)
              × (h'.sent ≡ h.sent ++ b ∷ [])
              × (h'.seq ≡ (h.seq + 1) % 2 ^ 64)))

  reply-Wrote :
      (h : Handler g c) (now : ℕ) (p : Payload)
      → let (h', r) = reply now p h in Wrote h h' (is_ok r)
  unfolding reply next_seq envelope
  reply-Wrote h now p =
      let e = envelope h.seq now p in
      let (seq, server, out) = send_envelope-Put (next_seq h).0 e in
      (
        ground (arith, server),
        elim out [
          | inl (same, bad) ↦ inl (same, rw bad tt)
          | inr (b, good, more) ↦ inr (b, e, good, refl, more, seq)
        ],
      )

  reply_error-Wrote :
      (h : Handler g c) (now code : ℕ) (text : String)
      → let (h', r) = reply_error now code text h in Wrote h h' (is_ok r)
  unfolding reply_error send_error reply
  reply_error-Wrote h now code text = reply-Wrote h now (system (error code text))

  then_pure_good :
      {B : Type 0} (m : Action g c (Unit {0})) (b : B) (h : Handler g c)
      → is_ok ((m >> pure b) h).1 ≡ is_ok (m h).1
  then_pure_good m b h = ground arith

  then_pure-Wrote :
      {B : Type 0} (m : Action g c (Unit {0})) (b : B) (h : Handler g c)
      → Wrote h (m h).0 (is_ok (m h).1)
      → let (h', r) = (m >> pure b) h in Wrote h h' (is_ok r)
  then_pure-Wrote m b h w = rw (then_pure m b h, then_pure_good m b h) w

  joined-Wrote :
      (h : Handler g c) (now code : ℕ) (tx : PlayerSender) (r : Result RoomError RoomId)
      → let (h', good) = joined now code tx r h in Wrote h h' (is_ok good)
  unfolding joined
  joined-Wrote h now code tx (ok rid) =
      let told = reply now (system (room_joined rid "")) in
      let deaf = record h { room_rx = some tx } in
      then_pure-Wrote told false deaf (reply-Wrote deaf now (system (room_joined rid "")))
  joined-Wrote h now code tx (err e) =
      then_pure-Wrote (reply_error now code (error_text e)) false h
        (reply_error-Wrote h now code (error_text e))

  handle_system_message-Wrote :
      (h : Handler g c) (pid : PlayerId) (order : List RoomId) (now now' : ℕ) (m : SystemMessage)
      → let (h', r) = handle_system_message pid order now now' m h in Wrote h h' (is_ok r)
  unfolding handle_system_message on_rooms new_channel
  handle_system_message-Wrote h pid order now now' (heartbeat t) =
      let p = system (heartbeat_ack t (millis now')) in
      then_pure-Wrote (reply now p) false h (reply-Wrote h now p)
  handle_system_message-Wrote h pid order now now' (join_room rid) =
      let tx = h.server.next_channel in
      let x = on_rooms (λ m. into rid (Manager.join_room m pid rid tx)) (new_channel h).0 in
      joined-Wrote x.0 now 404 tx (into rid (Manager.join_room h.server.rooms pid rid tx)).1
  handle_system_message-Wrote h pid order now now' (join_or_create name options) =
      let tx = h.server.next_channel in
      let call = λ (m : RoomManager g). Manager.join_or_create m order pid g.default_config tx in
      joined-Wrote (on_rooms call (new_channel h).0).0 now 409 tx (call h.server.rooms).1
  handle_system_message-Wrote h pid order now now' list_rooms =
      let called = (on_rooms (λ m. room_entries m order) h).0 in
      let p = system (room_list (room_entries h.server.rooms order).1) in
      then_pure-Wrote (reply now p) false called (reply-Wrote called now p)
  handle_system_message-Wrote h pid order now now' leave_room = (refl, inl (refl, refl))
  handle_system_message-Wrote h pid order now now' (disconnect reason) = (refl, inl (refl, refl))
  handle_system_message-Wrote h pid order now now' _ = (refl, inl (refl, refl))

  routed-Wrote :
      (h : Handler g c) (now : ℕ) (r : Result RoomError (Unit {0}))
      → let (h', good) = routed now r h in Wrote h h' (is_ok good)
  unfolding routed
  routed-Wrote h now (ok _) = (refl, inl (refl, refl))
  routed-Wrote h now (err e) = reply_error-Wrote h now 400 (error_text e)

  handle_decoded-Wrote :
      (h : Handler g c) (pid : PlayerId) (now : ℕ) (r : Result ProtocolError g.ClientMessage)
      → let (h', good) = handle_decoded pid now r h in Wrote h h' (is_ok good)
  unfolding handle_decoded on_rooms
  handle_decoded-Wrote h pid now (err e) =
      reply_error-Wrote h now 400 ("invalid game message: " <> protocol_text e)
  handle_decoded-Wrote h pid now (ok msg) =
      let called = (on_rooms (λ m. quietly (Manager.route_message m pid msg)) h).0 in
      routed-Wrote called now (Manager.route_message h.server.rooms pid msg).1

  handle_payload-Wrote :
      (h : Handler g c) (pid : PlayerId) (order : List RoomId) (now now' : ℕ) (p : Payload)
      → let (h', r) = handle_payload pid order now now' p h in Wrote h h' (is_ok r)
  unfolding handle_payload handle_game_message decoded
  handle_payload-Wrote h pid order now now' (system m) =
      handle_system_message-Wrote h pid order now now' m
  handle_payload-Wrote h pid order now now' (game b) =
      then_pure-Wrote (handle_game_message pid now b) false h
        (handle_decoded-Wrote h pid now (h.server.codec.client_message.decode b))

  handle_received-Wrote :
      (h : Handler g c) (pid : PlayerId) (order : List RoomId) (now now' : ℕ)
      (r : Result TransportError (Option Bytes))
      → let (h', good) = handle_received pid order now now' r h in Wrote h h' (is_ok good)
  unfolding handle_received handle_envelope decoded opened
  handle_received-Wrote h pid order now now' (ok (some b)) =
      elim (Result-cases (h.server.codec.envelope.decode b)) [
        | inl (e, good) ↦ rw (good, opened) (handle_payload-Wrote h pid order now now' e.payload)
        | inr (why, bad) ↦ rw (bad, opened) (refl, inl (refl, refl))
      ]
  handle_received-Wrote h pid order now now' (ok none) = (refl, inl (refl, refl))
  handle_received-Wrote h pid order now now' (err e) = (refl, inl (refl, refl))

  forward_payload-Wrote :
      (h : Handler g c) (now : ℕ) (p : Result ProtocolError Payload)
      → let (h', r) = forward_payload now p h in Wrote h h' (is_ok r)
  unfolding forward_payload
  forward_payload-Wrote h now (err e) = (refl, inl (refl, tt))
  forward_payload-Wrote h now (ok p) = then_pure-Wrote (reply now p) false h (reply-Wrote h now p)

  forward_next-Wrote :
      (h : Handler g c) (now : ℕ) (next : Option (RoomOutbound g × Sends g))
      → let (h', r) = forward_next now next h in Wrote h h' (is_ok r)
  unfolding forward_next forward
  forward_next-Wrote h now none = (refl, inl (refl, refl))
  forward_next-Wrote h now (some (out, rest)) =
      forward_payload-Wrote (record h { server = record h.server { inboxes = rest } }) now
        (payload_of h.server.codec out)

  pub turn-Wrote :
      (h : Handler g c) (pid : PlayerId) (r : Ready)
      → let (h', good) = turn pid r h in Wrote h h' (is_ok good)
  unfolding turn receive take_outbound
  turn-Wrote h pid (inbound order now now') =
      let (conn, r) = c.recv h.conn in
      handle_received-Wrote (record h { conn = conn }) pid order now now' r
  turn-Wrote h pid (outbound now) = elim (Option-cases h.room_rx) [
    | inl deaf ↦ rw (deaf, take_outbound) (refl, inl (refl, refl))
    | inr (rx, e) ↦ rw (e, take_outbound) (forward_next-Wrote h now (take_from rx h.server.inboxes))
  ]
  turn-Wrote h pid idle = (refl, inl (refl, refl))
