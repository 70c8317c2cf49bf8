-- ===== src/Server/Handshake.antt =====
-- crates/arcforge/src/handler.rs: `perform_handshake`. The readings of the clock are arguments: `now`
-- for the envelope, `now'` for the server's time in it. `late` says that the time-out fires first.
pub mod Answers
pub mod Admission
use Prim.Native.String.{String, ◌++◌ as ◌<>◌}
use archforge.Prelude.{
  ℕ, Bool, true, false, List, [], ◌∷◌, Option, none, some, Result, ok, err, map_err, not, ◌==◌,
  if◌then◌else◌,
}
use archforge.Protocol.{Bytes, PlayerId, Payload, Envelope, system, handshake, handshake_ack}
use archforge.Protocol.Text.{decimal}
use archforge.Protocol.Codec.{ProtocolError, invalid_message}
use archforge.Transport.{Connection, TransportError}
use archforge.Session.{SessionError}
use archforge.Room.Logic.{GameLogic}
use archforge.Server.{ArcforgeError, transport, protocol, session, protocol_version}
use archforge.Server.Action.{
  Handler, Action, pure, fail, ◌>>=◌, ◌>>◌, send_envelope, send_error, envelope, millis, receive,
  decoded,
}

-- The match on the answer of `recv`, with the time-out around it.
unfoldable pub awaited : Option (Result TransportError (Option Bytes)) → Result ArcforgeError Bytes
awaited none = err (protocol (invalid_message "handshake timed out"))
awaited (some (ok none)) = err (protocol (invalid_message "connection closed before handshake"))
awaited (some (err e)) = err (transport e)
awaited (some (ok (some b))) = ok b

-- The version and the token, if this is a handshake.
unfoldable pub handshake_of : Payload → Option (ℕ × Option String)
handshake_of (system (handshake version token)) = some (version, token)
handshake_of _ = none

-- `token.as_deref().unwrap_or("")`.
unfoldable pub token_text : Option String → String
token_text none = ""
token_text (some t) = t

module _ {g : GameLogic} {c : Connection} where
  unfoldable pub await_first : Bool → Action g c (Option (Result TransportError (Option Bytes)))
  unfolding receive
  await_first true = pure none
  await_first false = do r ← receive; pure (some r)

  -- The end of the handshake, with the answer of the authenticator.
  unfoldable pub admitted : ℕ → ℕ → Result SessionError PlayerId → Action g c PlayerId
  unfolding send_error send_envelope
  admitted now now' (err e) = do send_error 401 "unauthorized" 0 now; fail (session e)
  admitted now now' (ok pid) = do
    send_envelope (envelope 0 now (system (handshake_ack pid (millis now'))))
    pure pid

  unfoldable pub authenticate : ℕ → ℕ → Option String → Action g c PlayerId
  unfolding admitted token_text
  authenticate now now' token h =
      admitted now now' (h.server.auth.authenticate (token_text token)) h

  unfoldable pub welcome : ℕ → ℕ → ℕ → Option String → Action g c PlayerId
  unfolding authenticate send_error
  welcome now now' version token =
      if not (version == protocol_version)
      then (do
        send_error 400 ("version mismatch: expected 1, got " <> decimal version) 0 now
        fail (protocol (invalid_message "protocol version mismatch")))
      else authenticate now now' token

  -- The handshake once it is decoded.
  unfoldable pub greet : ℕ → ℕ → Option (ℕ × Option String) → Action g c PlayerId
  unfolding welcome send_error
  greet now now' none = do
    send_error 400 "expected Handshake" 0 now
    fail (protocol (invalid_message "first message must be Handshake"))
  greet now now' (some (version, token)) = welcome now now' version token

  unfoldable pub greet_decoded : ℕ → ℕ → Result ProtocolError Envelope → Action g c PlayerId
  unfolding greet handshake_of
  greet_decoded now now' (err e) = fail (protocol e)
  greet_decoded now now' (ok e) = greet now now' (handshake_of e.payload)

  unfoldable pub greet_first : ℕ → ℕ → Result ArcforgeError Bytes → Action g c PlayerId
  unfolding greet_decoded decoded
  greet_first now now' (err e) = fail e
  greet_first now now' (ok b) = do r ← decoded (λ k. k.envelope) b; greet_decoded now now' r

  unfoldable pub perform_handshake : Bool → ℕ → ℕ → Action g c PlayerId
  unfolding greet_first awaited await_first
  perform_handshake late now now' = do
    first ← await_first late
    greet_first now now' (awaited first)
