-- ===== src/Server/Connection/Endings.antt =====
-- When a connection's loop ends.
use archforge.Prelude.{
  ℕ, zero, suc, ◌≤◌, ◌≡◌, ◌≢◌, refl, String, Bool, true, false, List, [], ◌∷◌, Option, none, some,
  Result, ok, err, arith, length,
}
use archforge.Protocol.{Bytes, PlayerId, RoomId}
use archforge.Transport.{
  Connection, TransportError, Message, WebSocketConnection, Sink, kept, binary, recv, recv_from,
  send, websocket,
}
use archforge.Transport.Frames.{recv_from-shorter}
use archforge.Room.Logic.{GameLogic}
use archforge.Server.{ArcforgeError}
use archforge.Server.Action.{Handler, receive}
use archforge.Server.Handler.{
  Ready, inbound, outbound, idle, Ended, running, turn, handle_received, handle_envelope,
  take_outbound, carry_on, message_loop,
}
use archforge.Server.Handler.Reads.{handle_envelope-keeps, take_outbound-keeps}

-- Whether the idle timer fires in one of the rounds, or more than `n` rounds read from the connection
-- before it does.
unfoldable pub ends_by : ℕ → List Ready → Bool
ends_by n [] = false
ends_by n (idle ∷ rs) = true
ends_by n (outbound now ∷ rs) = ends_by n rs
ends_by zero (inbound order now now' ∷ rs) = true
ends_by (suc n) (inbound order now now' ∷ rs) = ends_by n rs

module _ {g : GameLogic} {c : Connection} where
  carry_on-ends :
      (h : Handler g c) (answer : Result ArcforgeError Bool) (rest : Handler g c × Ended)
      → (answer ≡ ok false → rest.1 ≢ running)
      → (carry_on h answer rest).1 ≢ running
  unfolding carry_on
  carry_on-ends h (err e) rest k = λ e. cc
  carry_on-ends h (ok true) rest k = λ e. cc
  carry_on-ends h (ok false) rest k = k refl

  handle_received-ends :
      (h : Handler g c) (pid : PlayerId) (order : List RoomId) (now now' : ℕ)
      (r : Result TransportError (Option Bytes)) (rest : Handler g c × Ended)
      → ((b : Bytes) → r ≡ ok (some b) → rest.1 ≢ running)
      → let (h', answer) = handle_received pid order now now' r h in
        (carry_on h' answer rest).1 ≢ running
  unfolding handle_received carry_on
  handle_received-ends h pid order now now' (err e) rest k = λ e. cc
  handle_received-ends h pid order now now' (ok none) rest k = λ e. cc
  handle_received-ends h pid order now now' (ok (some b)) rest k =
      let (h', answer) = handle_envelope pid order now now' b h in
      carry_on-ends h' answer rest (λ _. k b refl)

abbrev Fits : ℕ → WebSocketConnection → Type 0
Fits n x = length x.incoming ≤ n

kept-Fits :
    (n : ℕ) (x : WebSocketConnection) (m : Message) (r : Result String (Unit {0}))
    → Fits n x
    → Fits n (kept x m r)
kept-Fits n x m (ok _) v = v
kept-Fits n x m (err e) v = v

send-Fits :
    (sink : Sink) (n : ℕ) (x : WebSocketConnection) (b : Bytes)
    → Fits n x
    → Fits n (send sink x b).0
unfolding send
send-Fits sink n x b v = kept-Fits n x (binary b) (sink x.sent (binary b)) v

module _ {g : GameLogic} (sink : Sink) where
  received-Fits :
      (h : Handler g (websocket sink)) (pid : PlayerId) (order : List RoomId) (now now' : ℕ)
      (r : Result TransportError (Option Bytes)) (b : Bytes) (n : ℕ)
      → r ≡ ok (some b)
      → Fits n h.conn
      → Fits n (handle_received pid order now now' r h).0.conn
  unfolding handle_received
  received-Fits h pid order now now' (ok (some d)) b n got v =
      handle_envelope-keeps (Fits n) (send-Fits sink n) h pid order now now' d v
  received-Fits h pid order now now' (ok none) b n got v = v
  received-Fits h pid order now now' (err e) b n got v = v

  -- The loop of a WebSocket connection from which at most `n` more frames come has ended when the idle
  -- timer has fired, or more than `n` rounds were rounds of reading, whatever the frames are and
  -- whatever was sent in between.
  pub message_loop-ends :
      (h : Handler g (websocket sink)) (pid : PlayerId) (n : ℕ) (rounds : List Ready)
      → length h.conn.incoming ≤ n
      → ends_by n rounds ≡ true
      → (message_loop pid rounds h).1 ≢ running
  unfolding message_loop turn receive recv ends_by
  message_loop-ends h pid n [] few e = ground (arith, e)
  message_loop-ends h pid n (idle ∷ rs) few e = λ same. cc
  message_loop-ends h pid n (outbound now ∷ rs) few e =
      let (h', answer) = take_outbound now h in
      carry_on-ends h' answer (message_loop pid rs h') (λ _.
        message_loop-ends h' pid n rs (take_outbound-keeps (Fits n) (send-Fits sink n) h now few) e)
  message_loop-ends h pid zero (inbound order now now' ∷ rs) few e =
      let (left, r) = recv_from h.conn.incoming in
      let read = record h { conn = record h.conn { incoming = left } } in
      let (h', answer) = handle_received pid order now now' r read in
      handle_received-ends read pid order now now' r (message_loop pid rs h')
        (λ b got. absurd (omega (arith, recv_from-shorter h.conn.incoming b got)))
  message_loop-ends h pid (suc n) (inbound order now now' ∷ rs) few e =
      let (left, r) = recv_from h.conn.incoming in
      let read = record h { conn = record h.conn { incoming = left } } in
      let (h', answer) = handle_received pid order now now' r read in
      handle_received-ends read pid order now now' r (message_loop pid rs h') (λ b got.
        message_loop-ends h' pid n rs
          (received-Fits read pid order now now' r b n got
            (omega (arith, recv_from-shorter h.conn.incoming b got)))
          e)
