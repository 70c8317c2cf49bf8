-- ===== src/Server.antt =====
-- crates/arcforge/src/server.rs and error.rs: the state that all connections share, and the server's
-- builder. The channels of the players are part of it: a new channel gets the next number, and what
-- was sent and not yet received waits in `inboxes`, in the order in which it was sent.
pub mod Action
pub mod Listing
pub mod Guards
pub mod Handshake
pub mod Handler
pub mod Connection
pub mod System
pub mod Channels
pub mod Accepting
use archforge.Prelude.{
  ℕ, suc, String, List, [], ◌∷◌, ◌++◌, Option, none, some, Result, ok, err, map_err, ◌>>=◌, ◌==◌,
  if◌then◌else◌,
}
use archforge.Protocol.Codec.{Codec, ProtocolError}
use archforge.Transport
use archforge.Transport.{
  ConnectionId, TransportError, accept_failed, Message, WebSocketConnection, WebSocketTransport,
  accept,
}
use archforge.Session
use archforge.Session.{SessionManager, SessionConfig, SessionError, Authenticator}
use archforge.Room.State.{RoomError}
use archforge.Room.Logic.{GameLogic}
use archforge.Room.Actor.{PlayerSender, RoomOutbound, Sends}
use archforge.Room.Manager
use archforge.Room.Manager.{RoomManager}

pub data ArcforgeError : Type 0 where
  transport : TransportError → ArcforgeError
  protocol : ProtocolError → ArcforgeError
  session : SessionError → ArcforgeError
  room : RoomError → ArcforgeError

abbrev pub protocol_version : ℕ
protocol_version = 1

pub record ServerState (g : GameLogic) : Type 0 where
  pub sessions : SessionManager
  pub rooms : RoomManager g
  pub auth : Authenticator
  pub codec : Codec g
  pub next_channel : PlayerSender
  pub inboxes : Sends g

pub record ArcforgeServerBuilder : Type 0 where
  pub bind_addr : String
  pub session_config : SessionConfig

unfoldable pub new : ArcforgeServerBuilder
new = record { bind_addr = "127.0.0.1:8080"; session_config = Session.default_config }

unfoldable pub bind : ArcforgeServerBuilder → String → ArcforgeServerBuilder
bind b addr = record b { bind_addr = addr }

unfoldable pub session_config : ArcforgeServerBuilder → SessionConfig → ArcforgeServerBuilder
session_config b config = record b { session_config = config }

-- A running server, without the handlers of its connections.
pub record ArcforgeServer (g : GameLogic) : Type 0 where
  pub listener : WebSocketTransport
  pub state : ServerState g

-- `bound` is what binding a listener to an address answers; the process-wide counters of connections
-- and of rooms are arguments, and so is the default codec.
unfoldable pub build :
    {g : GameLogic}
    → ArcforgeServerBuilder
    → (String → Result String (Unit {0}))
    → ConnectionId
    → ℕ
    → Authenticator
    → Codec g
    → Result ArcforgeError (ArcforgeServer g)
unfolding Transport.bind
build b bound next_connection_id next_room_id auth codec =
    map_err transport (Transport.bind bound next_connection_id b.bind_addr) >>= λ t. ok (record {
      listener = t;
      state = record {
        sessions = Session.new b.session_config;
        rooms = Manager.new next_room_id;
        auth = auth;
        codec = codec;
        next_channel = 0;
        inboxes = [];
      };
    })

-- `rx.recv()` of a channel: its first message, and what waits after it.
unfoldable pub take_from :
    {g : GameLogic} → PlayerSender → Sends g → Option (RoomOutbound g × Sends g)
take_from c [] = none
take_from c ((d, m) ∷ rest) =
    let later = take_from c rest in
    if d == c
    then some (m, rest)
    else elim later [ none ↦ none | some (m', rest') ↦ some (m', (d, m) ∷ rest') ]

-- The loop of `run`: the connections for which a handler is started, in order; `streams` is what the
-- listener yields.
unfoldable pub accepting :
    WebSocketTransport
    → List (Result String (List (Result String Message)))
    → List WebSocketConnection
unfolding accept
accepting t [] = []
accepting t (s ∷ streams) =
    let (t', r) = accept t s in
    let later = accepting t' streams in elim r [ ok conn ↦ conn ∷ later | err e ↦ later ]

unfoldable pub run :
    {g : GameLogic}
    → ArcforgeServer g
    → List (Result String (List (Result String Message)))
    → List WebSocketConnection
unfolding accepting
run s streams = accepting s.listener streams
