-- ===== src/Transport.antt =====
-- crates/arcforge-transport/src: the interface of a connection, and the WebSocket transport. The
-- sockets are third-party code: a stream is what its `next` will yield, in order, until it ends, and
-- what its sink answers to a message is a function, a parameter. An `std::io::Error` is its text.
pub mod Frames
use archforge.Prelude.{
  ℕ, suc, ◌+◌, ◌%◌, ◌^◌, String, List, [], ◌∷◌, ◌++◌, Option, none, some, Result, ok, err, map_err,
  ◌>>=◌,
}
use Prim.Native.String.{◌++◌ as ◌<>◌}
use archforge.Protocol.{Bytes}
use archforge.Protocol.Text.{decimal}

abbrev pub ConnectionId : Type 0
ConnectionId = ℕ

pub data TransportError : Type 0 where
  connection_closed send_failed receive_failed accept_failed : String → TransportError
  shutdown : TransportError

-- A connection as the handler uses it.
pub record Connection : Type 1 where
  pub Conn : Type 0
  pub send : Conn → Bytes → Conn × Result TransportError (Unit {0})
  pub recv : Conn → Conn × Result TransportError (Option Bytes)
  pub close : Conn → Conn × Result TransportError (Unit {0})
  pub id : Conn → ConnectionId

-- The default method of the trait.
unfoldable pub send_unreliable :
    (c : Connection) → c.Conn → Bytes → c.Conn × Result TransportError (Unit {0})
send_unreliable c = c.send

-- `tungstenite::Message`; a text is its bytes.
pub data Message : Type 0 where
  text binary ping pong frame : Bytes → Message
  close : Message

-- What `next` yields, and what was put into the sink.
pub record WebSocketConnection : Type 0 where
  pub id : ConnectionId
  pub incoming : List (Result String Message)
  pub sent : List Message

-- The sink's answer to a message, by what was sent before.
abbrev pub Sink : Type 0
Sink = List Message → Message → Result String (Unit {0})

-- The loop of `recv`.
unfoldable pub recv_from :
    List (Result String Message)
    → List (Result String Message) × Result TransportError (Option Bytes)
recv_from [] = ([], ok none)
recv_from (ok (binary b) ∷ rest) = (rest, ok (some b))
recv_from (ok (text b) ∷ rest) = (rest, ok (some b))
recv_from (ok close ∷ rest) = (rest, ok none)
recv_from (ok (ping b) ∷ rest) = recv_from rest
recv_from (ok (pong b) ∷ rest) = recv_from rest
recv_from (ok (frame b) ∷ rest) = recv_from rest
recv_from (err e ∷ rest) = (rest, err (receive_failed e))

unfoldable pub recv :
    WebSocketConnection → WebSocketConnection × Result TransportError (Option Bytes)
unfolding recv_from
recv c = let (rest, r) = recv_from c.incoming in (record c { incoming = rest }, r)

abbrev pub kept : WebSocketConnection → Message → Result String (Unit {0}) → WebSocketConnection
kept c m (ok _) = record c { sent = c.sent ++ m ∷ [] }
kept c m (err e) = c

module _ (sink : Sink) where
  unfoldable pub send :
      WebSocketConnection → Bytes → WebSocketConnection × Result TransportError (Unit {0})
  send c b = let r = sink c.sent (binary b) in (kept c (binary b) r, map_err send_failed r)

  unfoldable pub close_connection :
      WebSocketConnection → WebSocketConnection × Result TransportError (Unit {0})
  close_connection c = let r = sink c.sent close in (kept c close r, map_err send_failed r)

  abbrev pub websocket : Connection
  websocket = record {
    Conn = WebSocketConnection;
    send = send;
    recv = recv;
    close = close_connection;
    id = λ c. c.id;
  }

-- The listener's side: `NEXT_CONNECTION_ID` is a field. A stream that comes in, or what went wrong
-- with it, is an argument.
pub record WebSocketTransport : Type 0 where
  pub next_connection_id : ConnectionId

-- `bound` is what binding a listener to an address answers, and `next` the process-wide counter.
unfoldable pub bind :
    (String → Result String (Unit {0}))
    → ConnectionId
    → String
    → Result TransportError WebSocketTransport
bind bound next addr =
    map_err accept_failed (bound addr) >>= λ _. ok (record { next_connection_id = next })

unfoldable pub accept :
    WebSocketTransport
    → Result String (List (Result String Message))
    → WebSocketTransport × Result TransportError WebSocketConnection
accept t (err e) = (t, err (accept_failed e))
accept t (ok incoming) = (
  record t { next_connection_id = (t.next_connection_id + 1) % 2 ^ 64 },
  ok (record { id = t.next_connection_id; incoming = incoming; sent = [] }),
)

unfoldable pub shutdown_transport :
    WebSocketTransport → WebSocketTransport × Result TransportError (Unit {0})
shutdown_transport t = (t, ok tt)

-- `Display` of a connection's id.
unfoldable pub connection_text : ConnectionId → String
unfolding decimal
connection_text id = "conn-" <> decimal id
