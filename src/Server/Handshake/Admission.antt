-- ===== src/Server/Handshake/Admission.antt =====
-- The handshake that succeeds.
use archforge.Prelude.{ℕ, ◌≡◌, false, String, Option, some, ok, arith}
use archforge.Protocol.{Bytes, PlayerId, Envelope, system, handshake, handshake_ack}
use archforge.Transport.{Connection}
use archforge.Room.Logic.{GameLogic}
use archforge.Server.{protocol_version}
use archforge.Server.Action.{
  Handler, send_envelope, encoded, transmit, envelope, millis, receive, decoded,
}
use archforge.Server.Handshake.{
  awaited, handshake_of, token_text, await_first, admitted, authenticate, welcome, greet,
  greet_decoded, greet_first, perform_handshake,
}

module _ {g : GameLogic} {c : Connection} (now now' : ℕ) where
  admitted-ok :
      (h : Handler g c) (pid : PlayerId) (ack : Bytes)
      → h.server.codec.envelope.encode (envelope 0 now (system (handshake_ack pid (millis now'))))
        ≡ ok ack
      → (c.send h.conn ack).1 ≡ ok tt
      → (admitted now now' (ok pid) h).1 ≡ ok pid
  unfolding admitted send_envelope encoded transmit
  admitted-ok h pid ack coded went = ground (arith, coded, went)

  -- A client is let in as `pid` when its first message, in time, is a handshake of this version with a
  -- token that the authenticator takes for that of `pid`, and the acknowledgement can be encoded and
  -- is sent.
  pub perform_handshake-ok :
      (h : Handler g c) (b : Bytes) (e : Envelope) (token : Option String) (pid : PlayerId)
      (ack : Bytes)
      → (c.recv h.conn).1 ≡ ok (some b)
      → h.server.codec.envelope.decode b ≡ ok e
      → e.payload ≡ system (handshake protocol_version token)
      → h.server.auth.authenticate (token_text token) ≡ ok pid
      → h.server.codec.envelope.encode (envelope 0 now (system (handshake_ack pid (millis now'))))
        ≡ ok ack
      → (c.send (c.recv h.conn).0 ack).1 ≡ ok tt
      → (perform_handshake false now now' h).1 ≡ ok pid
  unfolding perform_handshake await_first receive
  perform_handshake-ok h b e token pid ack came good said known coded went =
      let read = record h { conn = (c.recv h.conn).0 } in
      rw
        (
          came, awaited, greet_first, decoded, good, greet_decoded, said, handshake_of, greet,
          welcome, authenticate, known,
        )
        (admitted-ok read pid ack coded went)
