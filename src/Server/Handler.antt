-- ===== src/Server/Handler.antt =====
-- crates/arcforge/src/handler.rs: the message loop of a connection. `select!` takes one of its branches
-- whenever one is ready: which one it takes is an argument, with the clock's readings of the round
-- and the order in which the map of the rooms is walked.
pub mod Rooms
pub mod Numbers
pub mod Reads
pub mod Forwarding
pub mod Joining
use Prim.Native.String.{String, ◌++◌ as ◌<>◌}
use archforge.Prelude.{
  ℕ, suc, ◌+◌, Bool, true, false, List, [], ◌∷◌, ◌++◌, Option, none, some, Result, ok, err, map,
  map_ok,
}
use archforge.Protocol.{
  Envelope, Bytes, PlayerId, RoomId, SystemMessage, Payload, RoomListEntry, heartbeat,
  heartbeat_ack, join_room, join_or_create, leave_room, list_rooms, room_list, room_state,
  room_joined, disconnect, system, game,
}
use archforge.Protocol.Codec.{Codec, Format, ProtocolError, protocol_text}
use archforge.Transport.{Connection, TransportError}
use archforge.Session
use archforge.Session.{Session, SessionError, Instant}
use archforge.Room.State.{RoomError}
use archforge.Room.State.Text.{error_text}
use archforge.Room.Logic.{GameLogic}
use archforge.Room.Actor.{RoomInfo, PlayerSender, RoomOutbound, Sends}
use archforge.Room.Manager
use archforge.Room.Manager.{RoomManager}
use archforge.Server.{ServerState, ArcforgeError, transport, protocol, session, take_from}
use archforge.Server.Action.{
  Handler, Action, pure, fail, modify, ◌>>=◌, ◌>>◌, reply, reply_error, millis, receive, decoded,
}
use archforge.Server.Listing.{room_entries}

-- The branch of `select!` that is taken.
pub data Ready : Type 0 where
  inbound : List RoomId → ℕ → ℕ → Ready
  outbound : ℕ → Ready
  idle : Ready

-- How the loop of a handler stands: ended, ended by an error, or going on.
pub data Ended : Type 0 where
  closed running : Ended
  failed : ArcforgeError → Ended

module _ {g : GameLogic} where
  -- The room that was joined, if it was.
  abbrev pub into :
      RoomId
      → RoomManager g × Result RoomError (Unit {0}) × Sends g
      → RoomManager g × Result RoomError RoomId × Sends g
  into rid (m, ok _, sends) = (m, ok rid, sends)
  into rid (m, err e, sends) = (m, err e, sends)

  -- A call that sends nothing.
  abbrev pub quietly : {A : Type 0} → RoomManager g × A → RoomManager g × A × Sends g
  quietly (m, a) = (m, a, [])

  -- The payload of an outbound message, with the game's part encoded.
  unfoldable pub payload_of : Codec g → RoomOutbound g → Result ProtocolError Payload
  payload_of k (RoomOutbound.state s) = map_ok (λ b. system (room_state b)) (k.state.encode s)
  payload_of k (RoomOutbound.message m) = map_ok game (k.server_message.encode m)

module _ {g : GameLogic} {c : Connection} where
  -- A call of the room manager under its lock; what the rooms send goes to the players' channels.
  unfoldable pub on_rooms :
      {A : Type 0} → (RoomManager g → RoomManager g × A × Sends g) → Action g c A
  on_rooms call h =
      let (rooms, answer, sends) = call h.server.rooms in
      let server = record h.server { rooms = rooms; inboxes = h.server.inboxes ++ sends } in
      (record h { server = server }, ok answer)

  -- `mpsc::unbounded_channel()`.
  unfoldable pub new_channel : Action g c PlayerSender
  new_channel h =
      let server = record h.server { next_channel = suc h.server.next_channel } in
      (record h { server = server }, ok h.server.next_channel)

  abbrev pub listen : Option PlayerSender → Action g c (Unit {0})
  listen rx = modify (λ h. record h { room_rx = rx })

  -- The answer to a join: the player listens to the new channel, or is told the error.
  unfoldable pub joined : ℕ → ℕ → PlayerSender → Result RoomError RoomId → Action g c Bool
  unfolding reply reply_error
  joined now code tx (ok rid) = do
    listen (some tx)
    reply now (system (room_joined rid ""))
    pure false
  joined now code tx (err e) = do reply_error now code (error_text e); pure false

  -- `true`: the connection closes.
  unfoldable pub handle_system_message :
      PlayerId → List RoomId → ℕ → ℕ → SystemMessage → Action g c Bool
  unfolding reply on_rooms new_channel joined room_entries millis
  handle_system_message pid order now now' (heartbeat client_time) = do
    reply now (system (heartbeat_ack client_time (millis now')))
    pure false
  handle_system_message pid order now now' (join_room rid) = do
    tx ← new_channel
    r ← on_rooms (λ m. into rid (Manager.join_room m pid rid tx))
    joined now 404 tx r
  handle_system_message pid order now now' (join_or_create name options) = do
    tx ← new_channel
    r ← on_rooms (λ m. Manager.join_or_create m order pid g.default_config tx)
    joined now 409 tx r
  handle_system_message pid order now now' list_rooms = do
    entries ← on_rooms (λ m. room_entries m order)
    reply now (system (room_list entries))
    pure false
  handle_system_message pid order now now' leave_room = do
    r ← on_rooms (λ m. Manager.leave_room m pid)
    listen none
    pure false
  handle_system_message pid order now now' (disconnect reason) = pure true
  handle_system_message pid order now now' _ = pure false

  unfoldable pub routed : ℕ → Result RoomError (Unit {0}) → Action g c (Unit {0})
  unfolding reply_error
  routed now (ok _) = pure tt
  routed now (err e) = reply_error now 400 (error_text e)

  unfoldable pub handle_decoded :
      PlayerId → ℕ → Result ProtocolError g.ClientMessage → Action g c (Unit {0})
  unfolding reply_error on_rooms routed
  handle_decoded pid now (err e) = reply_error now 400 ("invalid game message: " <> protocol_text e)
  handle_decoded pid now (ok msg) = do
    r ← on_rooms (λ m. quietly (Manager.route_message m pid msg))
    routed now r

  unfoldable pub handle_game_message : PlayerId → ℕ → Bytes → Action g c (Unit {0})
  unfolding handle_decoded decoded
  handle_game_message pid now data_bytes = do
    msg ← decoded (λ k. k.client_message) data_bytes
    handle_decoded pid now msg

  unfoldable pub handle_payload : PlayerId → List RoomId → ℕ → ℕ → Payload → Action g c Bool
  unfolding handle_system_message handle_game_message
  handle_payload pid order now now' (system m) = handle_system_message pid order now now' m
  handle_payload pid order now now' (game b) = do handle_game_message pid now b; pure false

  -- An envelope that cannot be decoded is passed over.
  unfoldable pub opened :
      PlayerId → List RoomId → ℕ → ℕ → Result ProtocolError Envelope → Action g c Bool
  unfolding handle_payload
  opened pid order now now' (err e) = pure false
  opened pid order now now' (ok e) = handle_payload pid order now now' e.payload

  unfoldable pub handle_envelope : PlayerId → List RoomId → ℕ → ℕ → Bytes → Action g c Bool
  unfolding opened decoded
  handle_envelope pid order now now' b = do
    e ← decoded (λ k. k.envelope) b
    opened pid order now now' e

  -- `Ok(None)` and an error of `recv` both end the loop.
  unfoldable pub handle_received :
      PlayerId → List RoomId → ℕ → ℕ → Result TransportError (Option Bytes) → Action g c Bool
  unfolding handle_envelope
  handle_received pid order now now' (ok (some b)) = handle_envelope pid order now now' b
  handle_received pid order now now' (ok none) = pure true
  handle_received pid order now now' (err e) = pure true

  unfoldable pub forward_payload : ℕ → Result ProtocolError Payload → Action g c Bool
  unfolding reply
  forward_payload now (err e) = fail (protocol e)
  forward_payload now (ok p) = do reply now p; pure false

  unfoldable pub forward : ℕ → RoomOutbound g → Action g c Bool
  unfolding payload_of forward_payload
  forward now out h = forward_payload now (payload_of h.server.codec out) h

  -- The branch is not ready while nothing waits in the channel.
  unfoldable pub forward_next : ℕ → Option (RoomOutbound g × Sends g) → Action g c Bool
  unfolding forward
  forward_next now none = pure false
  forward_next now (some (out, rest)) = do
    modify (λ h. record h { server = record h.server { inboxes = rest } })
    forward now out

  unfoldable pub take_outbound : ℕ → Action g c Bool
  unfolding forward_next
  take_outbound now h = elim h.room_rx [
    | none ↦ (h, ok false)
    | some rx ↦ forward_next now (take_from rx h.server.inboxes) h
  ]

  -- One round of the loop; `true` is its `break`.
  unfoldable pub turn : PlayerId → Ready → Action g c Bool
  unfolding receive handle_received take_outbound
  turn pid (inbound order now now') = do r ← receive; handle_received pid order now now' r
  turn pid (outbound now) = take_outbound now
  turn pid idle = pure true

  -- On `break`, and on an error, the loop is left; `rest` is the loop going on.
  unfoldable pub carry_on :
      Handler g c → Result ArcforgeError Bool → Handler g c × Ended → Handler g c × Ended
  carry_on h (err e) rest = (h, failed e)
  carry_on h (ok true) rest = (h, closed)
  carry_on h (ok false) rest = rest

  unfoldable pub message_loop : PlayerId → List Ready → Handler g c → Handler g c × Ended
  unfolding turn carry_on
  message_loop pid [] h = (h, running)
  message_loop pid (r ∷ rs) h =
      let (h', answer) = turn pid r h in carry_on h' answer (message_loop pid rs h')
