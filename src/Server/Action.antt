-- ===== src/Server/Action.antt =====
-- crates/arcforge/src/handler.rs: what the actions of a connection's handler are made of. An action
-- runs on the handler's own variables and on the state that all handlers share, and ends in an error
-- or not; the state comes back in both cases. Clock readings are arguments, in nanoseconds since
-- `start`. `sent` is a record of what went out: the bytes that `conn.send` took, in order.
pub mod Sending
use Prim.Native.String.{String, ◌++◌ as ◌<>◌}
use archforge.Prelude.{
  ℕ, ◌+◌, ◌/◌, ◌%◌, ◌^◌, ◌≡◌, Bool, true, false, List, [], ◌∷◌, ◌++◌, Option, none, some, Result,
  ok, err, map, map_err, ltb, leb, not, ◌==◌, if◌then◌else◌,
}
use archforge.Protocol.{
  Bytes, PlayerId, RoomId, SystemMessage, Payload, Envelope, RoomListEntry, Channel,
  reliable_ordered, handshake, handshake_ack, heartbeat, heartbeat_ack, join_room, join_or_create,
  leave_room, list_rooms, room_list, room_state, room_joined, error, disconnect, system, game,
}
use archforge.Protocol.Codec.{Format, Codec, ProtocolError, invalid_message, protocol_text}
use archforge.Transport.{Connection, TransportError}
use archforge.Session
use archforge.Session.{SessionError, Authenticator, Instant}
use archforge.Room.State.{RoomError}
use archforge.Room.State.Text.{error_text}
use archforge.Room.Logic.{GameLogic}
use archforge.Room.Actor.{RoomInfo, PlayerSender, RoomOutbound, Sends, state, message}
use archforge.Room.Manager
use archforge.Room.Manager.{RoomManager}
use archforge.Server.{
  ServerState, ArcforgeError, transport, protocol, session, protocol_version, take_from,
}

-- The variables of a handler, with the state it shares.
pub record Handler (g : GameLogic) (c : Connection) : Type 0 where
  pub server : ServerState g
  pub conn : c.Conn
  pub seq : ℕ
  pub room_rx : Option PlayerSender
  pub sent : List Bytes

-- `start.elapsed().as_millis() as u64`.
unfoldable pub millis : ℕ → ℕ
millis now = now / 10 ^ 6 % 2 ^ 64

unfoldable pub envelope : ℕ → ℕ → Payload → Envelope
envelope seq now payload = record {
  seq = seq;
  timestamp = millis now;
  channel = reliable_ordered;
  payload = payload;
}

abbrev pub Action : GameLogic → Connection → Type 0 → Type 0
Action g c A = Handler g c → Handler g c × Result ArcforgeError A

module _ {g : GameLogic} {c : Connection} where
  abbrev pub pure : {A : Type 0} → A → Action g c A
  pure a h = (h, ok a)

  abbrev pub fail : {A : Type 0} → ArcforgeError → Action g c A
  fail e h = (h, err e)

  abbrev pub modify : (Handler g c → Handler g c) → Action g c (Unit {0})
  modify f h = (f h, ok tt)

  infixl 5 ◌>>=◌ ◌>>◌
  abbrev pub ◌>>=◌ : {A B : Type 0} → Action g c A → (A → Action g c B) → Action g c B
  ◌>>=◌ m f h = let (h', r) = m h in elim r [ ok a ↦ f a h' | err e ↦ (h', err e) ]

  abbrev pub ◌>>◌ : {B : Type 0} → Action g c (Unit {0}) → Action g c B → Action g c B
  m >> k = m >>= λ _. k

module _ {g : GameLogic} {c : Connection} where
  unfoldable pub next_seq : Action g c ℕ
  next_seq h = (record h { seq = (h.seq + 1) % 2 ^ 64 }, ok h.seq)

  unfoldable pub encoded : {T : Type 0} → (Codec g → Format T) → T → Action g c Bytes
  encoded format v h = (h, map_err protocol ((format h.server.codec).encode v))

  abbrev pub noted : Handler g c → c.Conn → Bytes → Result TransportError (Unit {0}) → Handler g c
  noted h conn b (ok _) = record h { conn = conn; sent = h.sent ++ b ∷ [] }
  noted h conn b (err e) = record h { conn = conn }

  -- `conn.send(&bytes).await.map_err(ArcforgeError::Transport)?`.
  unfoldable pub transmit : Bytes → Action g c (Unit {0})
  transmit b h = let (conn, r) = c.send h.conn b in (noted h conn b r, map_err transport r)

  unfoldable pub send_envelope : Envelope → Action g c (Unit {0})
  unfolding encoded transmit
  send_envelope e = do b ← encoded (λ k. k.envelope) e; transmit b

  unfoldable pub send_error : ℕ → String → ℕ → ℕ → Action g c (Unit {0})
  unfolding send_envelope
  send_error code text seq now = send_envelope (envelope seq now (system (error code text)))

  -- An envelope with the next number.
  unfoldable pub reply : ℕ → Payload → Action g c (Unit {0})
  unfolding next_seq send_envelope
  reply now payload = do seq ← next_seq; send_envelope (envelope seq now payload)

  -- An error with the next number.
  unfoldable pub reply_error : ℕ → ℕ → String → Action g c (Unit {0})
  unfolding next_seq send_error
  reply_error now code text = do seq ← next_seq; send_error code text seq now

  unfoldable pub receive : Action g c (Result TransportError (Option Bytes))
  receive h = let (conn, r) = c.recv h.conn in (record h { conn = conn }, ok r)

  unfoldable pub decoded :
      {T : Type 0} → (Codec g → Format T) → Bytes → Action g c (Result ProtocolError T)
  decoded format b h = (h, ok ((format h.server.codec).decode b))
