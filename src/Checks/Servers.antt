-- ===== src/Checks/Servers.antt =====
-- A server with the game of the tests, and a client over a WebSocket.
use archforge.Prelude.{◌≡◌, refl, false, String, List, [], ◌∷◌, Result, ok, nat_eq, string_eq}
use archforge.Prelude.HashMap
use archforge.Prelude.HashSet
use archforge.Transport.{
  Message, ping, binary, close, WebSocketConnection, Sink, websocket, recv, send,
}
use archforge.Session
use archforge.Session.{Authenticator}
use archforge.Room.State.{is_joinable}
use archforge.Room.Actor
use archforge.Room.Handle
use archforge.Room.Manager
use archforge.Server
use archforge.Server.{ServerState, ArcforgeServer, ArcforgeError, ArcforgeServerBuilder, build}
use archforge.Server.Action.{envelope}
use archforge.Server.Handler.{Ready, inbound}
use archforge.Server.Connection.{handle_connection}
use archforge.Checks.Game.{adding}
use archforge.Checks.Wire.{codec, wiring}

-- Every token is that of player 5.
abbrev pub guest : Authenticator
guest = record { authenticate = λ token. ok 5 }

abbrev pub server : ServerState adding
server = record {
  sessions = Session.new Session.default_config;
  rooms = Manager.new 1;
  auth = guest;
  codec = codec;
  next_channel = 0;
  inboxes = [];
}

abbrev pub running_server : ArcforgeServer adding
running_server = record { listener = record { next_connection_id = 1 }; state = server }

pub server_built : build Server.new (λ addr. ok tt) 1 1 guest codec ≡ ok running_server
unfolding build Server.new
server_built = refl

-- A ping, a handshake, a request for any room, a heartbeat, and the end.
abbrev pub frames : List (Result String Message)
frames =
    ok (ping [])
    ∷ ok (binary (0 ∷ 0 ∷ 2 ∷ 1 ∷ []))
    ∷ ok (binary (1 ∷ 0 ∷ 8 ∷ []))
    ∷ ok (binary (2 ∷ 0 ∷ 4 ∷ 77 ∷ []))
    ∷ ok close
    ∷ []

abbrev pub client : WebSocketConnection
client = record { id = 1; incoming = frames; sent = [] }

abbrev pub sink : Sink
sink sent m = ok tt

abbrev pub rounds : List Ready
rounds = inbound [] 2_000_000 3_000_000 ∷ inbound (1 ∷ []) 4_000_000 5_000_000 ∷ inbound [] 0 0 ∷ []

-- What a test has to open for a server to run.
unfoldable pub serving : Unit {0}
unfolding wiring recv send HashMap.new HashMap.get HashMap.insert handle_connection Session.create
    Manager.new Manager.join_or_create Session.new envelope Handle.join Actor.handle is_joinable
    Actor.auto_start HashSet.contains HashSet.new HashSet.len HashSet.insert
serving = tt

-- What the client is sent.
answers :
    (handle_connection {c = websocket sink} false 0 1_000_000 "abc" rounds 9 server client).0.sent
    ≡ (0 ∷ 0 ∷ 3 ∷ 5 ∷ 1 ∷ []) ∷ (1 ∷ 2 ∷ 7 ∷ 1 ∷ []) ∷ (2 ∷ 4 ∷ 5 ∷ 77 ∷ 5 ∷ []) ∷ []
unfolding serving
answers = refl
