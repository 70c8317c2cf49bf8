-- ===== src/Server/Handler/Forwarding.antt =====
-- How the messages of a room get to the client.
use archforge.Prelude.{
  ℕ, ◌+◌, ◌%◌, ◌^◌, ◌≡◌, ◌∙◌, refl, ◌⊎◌, inl, inr, sym, subst, ap, Bool, false, List, [], ◌∷◌, ◌++◌,
  Option, none, some, Result, ok, err, arith, ◌==◌, Result-cases, Bool-cases, ==_iff, if◌then◌else◌,
}
use archforge.Protocol.{Bytes, Payload}
use archforge.Protocol.Codec.{ProtocolError}
use archforge.Transport.{Connection, TransportError}
use archforge.Room.Logic.{GameLogic}
use archforge.Room.Actor.{PlayerSender, RoomOutbound, Sends}
use archforge.Server.{ArcforgeError, protocol, take_from}
use archforge.Server.Action.{
  Handler, ◌>>◌, pure, reply, next_seq, send_envelope, encoded, transmit, envelope,
}
use archforge.Room.Actor.Delivery.{received}
use archforge.Server.Channels.{Received, take_from-Received}
use archforge.Server.Handler.{payload_of, forward_payload, forward, forward_next, take_outbound}
use archforge.Server.Handler.Rooms.{reply-server, then_pure}

-- What waits, channel by channel, once the first message of one channel is taken.
left_received :
    {g : GameLogic} (rx : PlayerSender) (ms : List (RoomOutbound g)) (old new : Sends g)
    → received rx new ≡ ms
    → ((d : PlayerSender) → (d == rx) ≡ false → received d new ≡ received d old)
    → (d : PlayerSender) → received d new ≡ (if d == rx then ms else received d old)
left_received rx ms old new first same d = elim (Bool-cases (d == rx)) [
  | inl here ↦ rw here (subst (λ k. received k new ≡ ms) (sym ((==_iff d rx).0 here)) first)
  | inr other ↦ rw other (same d other)
]

module _ {g : GameLogic} {c : Connection} where
  -- An envelope with the payload went out under the number of the handler, which goes on; or nothing
  -- went out and the handler ends in the codec's error, for the payload or for the envelope, or in that
  -- of the connection, which did not take the bytes.
  abbrev pub Out :
      Handler g c
      → ℕ
      → Result ProtocolError Payload
      → Handler g c × Result ArcforgeError Bool
      → Type 0
  Out h now (err why) (h', answer) = (answer ≡ err (protocol why)) × (h'.sent ≡ h.sent)
  Out h now (ok p) (h', answer) =
      let bytes = h.server.codec.envelope.encode (envelope h.seq now p) in
      ((b : Bytes) × (bytes ≡ ok b)
        × ((c.send h.conn b).1 ≡ ok tt)
        × (h'.sent ≡ h.sent ++ b ∷ [])
        × (answer ≡ ok false))
      ⊎ ((why : ProtocolError) × (bytes ≡ err why)
          × (h'.sent ≡ h.sent)
          × (answer ≡ err (protocol why)))
      ⊎ ((b : Bytes) × (why : TransportError) × (bytes ≡ ok b)
          × ((c.send h.conn b).1 ≡ err why)
          × (h'.sent ≡ h.sent)
          × (answer ≡ err (ArcforgeError.transport why)))

  pub send_envelope-Out :
      (h : Handler g c) (now : ℕ) (p : Payload)
      → let h1 = record h { seq = (h.seq + 1) % 2 ^ 64 } in
        Out h now (ok p) ((send_envelope (envelope h.seq now p) >> pure false) h1)
  unfolding send_envelope encoded transmit
  send_envelope-Out h now p =
      elim (Result-cases (h.server.codec.envelope.encode (envelope h.seq now p))) [
        | inr (why, bad) ↦ inr (inl (why, bad, ground (arith, bad), ground (arith, bad)))
        | inl (b, good) ↦ elim (Result-cases (c.send h.conn b).1) [
          | inl (tt, out) ↦ inl (b, good, out, ground (arith, good, out), ground (arith, good, out))
          | inr (why, bad) ↦
              inr (inr (b, why, good, bad, ground (arith, good, bad), ground (arith, good, bad)))
        ]
      ]

  pub reply-Out :
      (h : Handler g c) (now : ℕ) (p : Payload) → Out h now (ok p) ((reply now p >> pure false) h)
  unfolding reply next_seq
  reply-Out h now p = send_envelope-Out h now p

  forward_payload-Out :
      (h : Handler g c) (now : ℕ) (payload : Result ProtocolError Payload)
      → let x = forward_payload now payload h in Out h now payload x × (x.0.server ≡ h.server)
  unfolding forward_payload
  forward_payload-Out h now (err why) = ((refl, refl), refl)
  forward_payload-Out h now (ok p) = (
    reply-Out h now p,
    ap (λ k. k.server) (then_pure (reply now p) false h) ∙ reply-server h now p,
  )

  -- What a round that looks for a message of the room does, by what waits in the channel: the first
  -- message is taken, and the other channels are as they were.
  abbrev pub Next :
      Handler g c
      → ℕ
      → PlayerSender
      → List (RoomOutbound g)
      → Handler g c × Result ArcforgeError Bool
      → Type 0
  Next h now rx [] x = x ≡ (h, ok false)
  Next h now rx (m ∷ ms) x =
      ((d : PlayerSender)
        → received d x.0.server.inboxes ≡ (if d == rx then ms else received d h.server.inboxes))
      × Out h now (payload_of h.server.codec m) x

  -- Nothing is done by a handler that listens to no room.
  abbrev pub Forwarded :
      Handler g c → ℕ → Option PlayerSender → Handler g c × Result ArcforgeError Bool → Type 0
  Forwarded h now none x = x ≡ (h, ok false)
  Forwarded h now (some rx) x = Next h now rx (received rx h.server.inboxes) x

  forward_next-Next :
      (h : Handler g c) (now : ℕ) (rx : PlayerSender) (next : Option (RoomOutbound g × Sends g))
      → Received rx h.server.inboxes next
      → Next h now rx (received rx h.server.inboxes) (forward_next now next h)
  unfolding forward_next forward
  forward_next-Next h now rx none empty = rw empty refl
  forward_next-Next h now rx (some (m, rest)) (first, same) =
      let h1 = record h { server = record h.server { inboxes = rest } } in
      let (out, server) = forward_payload-Out h1 now (payload_of h.server.codec m) in
      let left = left_received rx (received rx rest) h.server.inboxes rest refl same in
      rw first (λ d. ap (λ s. received d s.inboxes) server ∙ left d, out)

  take_outbound-at :
      (h : Handler g c) (now : ℕ) (rx : Option PlayerSender)
      → h.room_rx ≡ rx
      → Forwarded h now rx (take_outbound now h)
  unfolding take_outbound
  take_outbound-at h now none e = ground (arith, e)
  take_outbound-at h now (some rx) e =
      let next = take_from rx h.server.inboxes in
      let same : take_outbound now h ≡ forward_next now next h = ground (arith, e) in
      subst (Next h now rx (received rx h.server.inboxes)) (sym same)
        (forward_next-Next h now rx next (take_from-Received rx h.server.inboxes))

  -- A round in which the handler looks for a message of its room takes the message that was sent
  -- first to the channel that the handler listens to, and leaves what waits behind it and in the other
  -- channels. It sends the message, encoded, in an envelope with the handler's number, and goes on; only
  -- if the message or the envelope cannot be encoded, or the connection does not take it, the handler
  -- ends in that error, and the message is lost. If nothing waits, or the handler listens to no room,
  -- nothing happens.
  pub take_outbound-Forwarded :
      (h : Handler g c) (now : ℕ) → Forwarded h now h.room_rx (take_outbound now h)
  take_outbound-Forwarded h now = take_outbound-at h now h.room_rx refl
