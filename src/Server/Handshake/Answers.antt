-- ===== src/Server/Handshake/Answers.antt =====
-- Who is let in, and what a client is told.
use Prim.Native.String.{String, ◌++◌ as ◌<>◌}
use archforge.Prelude.{
  ℕ, ◌≡◌, refl, ◌⊎◌, inl, inr, Bool, true, false, [], ◌∷◌, ◌++◌, append-nil, Option, none, some,
  Result, ok, err, is_ok, arith, ◌==◌, Result-cases, Bool-cases, ==_iff, ap,
}
use archforge.Protocol.{Bytes, PlayerId, Envelope, system, error, handshake_ack}
use archforge.Protocol.Text.{decimal}
use archforge.Protocol.Codec.{invalid_message}
use archforge.Transport.{Connection, TransportError}
use archforge.Session.{SessionError}
use archforge.Room.Logic.{GameLogic}
use archforge.Server.{ArcforgeError, protocol, session, protocol_version, ServerState}
use archforge.Server.Action.{
  Handler, Action, pure, fail, ◌>>◌, send_envelope, send_error, envelope, millis, receive, decoded,
}
use archforge.Server.Action.Sending.{Put, send_envelope-Put, Continued, Continued-end}
use archforge.Server.Handshake.{
  awaited, handshake_of, token_text, await_first, admitted, authenticate, welcome, greet,
  greet_decoded, greet_first, perform_handshake,
}

awaited-came :
    (r : Result TransportError (Option Bytes)) (b : Bytes)
    → awaited (some r) ≡ ok b
    → r ≡ ok (some b)
unfolding awaited
awaited-came (ok none) b e = ground (arith, e)
awaited-came (err x) b e = ground (arith, e)
awaited-came (ok (some b')) b e = ground (arith, e)

module _ {g : GameLogic} where
  -- What the client said, when it is let in as `pid`.
  abbrev pub Greeted : ServerState g → PlayerId → Option (ℕ × Option String) → Type 0
  Greeted s pid said =
      (token : Option String) × (said ≡ some (protocol_version, token))
      × (s.auth.authenticate (token_text token) ≡ ok pid)

module _ {g : GameLogic} {c : Connection} where
  -- The bytes that came first are those of a handshake of this version, with a token that the
  -- authenticator takes for that of `pid`.
  abbrev pub LetIn : Handler g c → Bool → PlayerId → Type 0
  LetIn h late pid =
      (late ≡ false)
      × ((b : Bytes) × (e : Envelope) × ((c.recv h.conn).1 ≡ ok (some b))
          × (h.server.codec.envelope.decode b ≡ ok e)
          × Greeted h.server pid (handshake_of e.payload))

module _ {g : GameLogic} {c : Connection} (now now' : ℕ) where
  -- The outcome of a handshake, by its result: who is let in satisfies `K`, and was sent the
  -- acknowledgement; who is not was sent at most one envelope, with the number 0. The shared state is
  -- as it was.
  abbrev pub Outcome :
      (PlayerId → Type 0) → Handler g c → Handler g c → Result ArcforgeError PlayerId → Type 0
  Outcome K h h' (ok pid) =
      K pid
      × (h'.server ≡ h.server)
      × (h'.seq ≡ h.seq)
      × ((b : Bytes) × (h.server.codec.envelope.encode
              (envelope 0 now (system (handshake_ack pid (millis now'))))
            ≡ ok b)
          × (h'.sent ≡ h.sent ++ b ∷ []))
  Outcome K h h' (err e) = (h'.server ≡ h.server) × Continued 0 1 h h'

  then_fail :
      (m : Action g c (Unit {0})) (why : ArcforgeError) (h : Handler g c)
      → (e : ArcforgeError) × (((m >> fail {A = PlayerId} why) h) ≡ ((m h).0, err e))
  then_fail m why h = elim (Result-cases (m h).1) [
    | inl (u, good) ↦ (why, ground arith)
    | inr (e, bad) ↦ (e, ground arith)
  ]

  -- What was put, as a log.
  Put-Continued :
      (h h' : Handler g c) (e : Envelope) (good : Bool)
      → e.seq ≡ 0
      → Put h e h' good
      → (h'.server ≡ h.server) × Continued 0 1 h h'
  Put-Continued h h' e good zeroth (seq, server, inl (same, bad)) =
      (server, ([], ground (arith, same, append-nil h.sent), tt, omega arith))
  Put-Continued h h' e good zeroth (seq, server, inr (b, coded, more)) =
      (server, (b ∷ [], more, ((e, coded, zeroth), tt), omega arith))

  refused :
      (K : PlayerId → Type 0) (h : Handler g c) (e : Envelope) (why : ArcforgeError)
      → e.seq ≡ 0
      → let m : Action g c PlayerId = send_envelope e >> fail why in Outcome K h (m h).0 (m h).1
  refused K h e why zeroth =
      let (x, same) = then_fail (send_envelope e) why h in
      let (h', r) = send_envelope e h in
      rw same (Put-Continued h h' e (is_ok r) zeroth (send_envelope-Put h e))

  then_admit :
      (m : Action g c (Unit {0})) (pid : PlayerId) (h : Handler g c)
      → ((is_ok (m h).1 ≡ true) × (((m >> pure pid) h) ≡ ((m h).0, ok pid)))
        ⊎ ((e : ArcforgeError) × (((m >> pure pid) h) ≡ ((m h).0, err e)))
  then_admit m pid h = elim (Result-cases (m h).1) [
    | inl (u, good) ↦ inl (ground arith, ground arith)
    | inr (e, bad) ↦ inr (e, ground arith)
  ]

  acknowledged :
      (K : PlayerId → Type 0) (h : Handler g c) (pid : PlayerId)
      → K pid
      → let e = envelope 0 now (system (handshake_ack pid (millis now'))) in
        let (h', out) = (send_envelope e >> pure pid) h in Outcome K h h' out
  unfolding envelope
  acknowledged K h pid known =
      let e = envelope 0 now (system (handshake_ack pid (millis now'))) in
      let (h', r) = send_envelope e h in
      let put = send_envelope-Put h e in
      elim (then_admit (send_envelope e) pid h) [
        | inr (x, same) ↦ rw same (Put-Continued h h' e (is_ok r) refl put)
        | inl (good, same) ↦ rw same (
          known,
          put.1,
          put.0,
          elim put.2 [
            | inl (old, bad) ↦ ground (arith, good, bad)
            | inr (b, coded, more) ↦ (b, coded, more)
          ],
        )
      ]

  admitted-Outcome :
      (K : PlayerId → Type 0) (h : Handler g c) (r : Result SessionError PlayerId)
      → ((pid : PlayerId) → r ≡ ok pid → K pid)
      → let (h', out) = admitted now now' r h in Outcome K h h' out
  unfolding admitted send_error envelope
  admitted-Outcome K h (err e) known =
      refused K h (envelope 0 now (system (error 401 "unauthorized"))) (session e) refl
  admitted-Outcome K h (ok pid) known = acknowledged K h pid (known pid refl)

  welcome-Outcome :
      (K : PlayerId → Type 0) (h : Handler g c) (version : ℕ) (token : Option String)
      → ((pid : PlayerId) → Greeted h.server pid (some (version, token)) → K pid)
      → let (h', out) = welcome now now' version token h in Outcome K h h' out
  unfolding welcome authenticate send_error envelope
  welcome-Outcome K h version token known = elim (Bool-cases (version == protocol_version)) [
    | inl same ↦ rw same (
        admitted-Outcome K h (h.server.auth.authenticate (token_text token)) (λ pid e.
          known pid
            (token, ap (λ v. some (v, token)) ((==_iff version protocol_version).0 same), e)))
    | inr other ↦
        let text = "version mismatch: expected 1, got " <> decimal version in
        let why = protocol (invalid_message "protocol version mismatch") in
        rw other (refused K h (envelope 0 now (system (error 400 text))) why refl)
  ]

  greet-Outcome :
      (K : PlayerId → Type 0) (h : Handler g c) (said : Option (ℕ × Option String))
      → ((pid : PlayerId) → Greeted h.server pid said → K pid)
      → let (h', out) = greet now now' said h in Outcome K h h' out
  unfolding greet send_error envelope
  greet-Outcome K h none known =
      refused K h (envelope 0 now (system (error 400 "expected Handshake")))
        (protocol (invalid_message "first message must be Handshake")) refl
  greet-Outcome K h (some (version, token)) known = welcome-Outcome K h version token known

  greet_first-Outcome :
      (K : PlayerId → Type 0) (h : Handler g c) (r : Result ArcforgeError Bytes)
      → ((pid : PlayerId) (b : Bytes) (e : Envelope)
          → r ≡ ok b
          → h.server.codec.envelope.decode b ≡ ok e
          → Greeted h.server pid (handshake_of e.payload)
          → K pid)
      → let (h', out) = greet_first now now' r h in Outcome K h h' out
  unfolding greet_first decoded greet_decoded
  greet_first-Outcome K h (err e) known = (refl, Continued-end 0 1 h)
  greet_first-Outcome K h (ok b) known = elim (Result-cases (h.server.codec.envelope.decode b)) [
    | inl (e, good) ↦
        rw (good, greet_decoded)
          (greet-Outcome K h (handshake_of e.payload) (λ pid. known pid b e refl good))
    | inr (why, bad) ↦ rw (bad, greet_decoded) (refl, Continued-end 0 1 h)
  ]

  Outcome-conn :
      (K : PlayerId → Type 0) (h h' : Handler g c) (conn : c.Conn)
      (r : Result ArcforgeError PlayerId)
      → Outcome K (record h { conn = conn }) h' r
      → Outcome K h h' r
  Outcome-conn K h h' conn (ok pid) o = o
  Outcome-conn K h h' conn (err e) o = o

  -- Who is let in sent first, and in time, a handshake of this version with a token that the
  -- authenticator takes for theirs, and was sent the acknowledgement, numbered 0, and nothing else.
  -- Who is not let in was sent at most one envelope, numbered 0 as well. In both cases the state that
  -- the connections share is as it was.
  pub perform_handshake-Outcome :
      (h : Handler g c) (late : Bool)
      → let (h', out) = perform_handshake late now now' h in Outcome (LetIn h late) h h' out
  unfolding perform_handshake await_first receive awaited
  perform_handshake-Outcome h true = (refl, Continued-end 0 1 h)
  perform_handshake-Outcome h false =
      let (conn, r) = c.recv h.conn in
      let read = record h { conn = conn } in
      let (h', out) = greet_first now now' (awaited (some r)) read in
      Outcome-conn (LetIn h false) h h' conn out (
        greet_first-Outcome (LetIn h false) read (awaited (some r))
          (λ pid b e came good said. (refl, (b, e, awaited-came r b came, good, said))))

  Outcome-server :
      (K : PlayerId → Type 0) (h h' : Handler g c) (r : Result ArcforgeError PlayerId)
      → Outcome K h h' r
      → h'.server ≡ h.server
  Outcome-server K h h' (ok pid) (known, same, seq, out) = same
  Outcome-server K h h' (err e) (same, rest) = same

  pub perform_handshake-server :
      (h : Handler g c) (late : Bool) → (perform_handshake late now now' h).0.server ≡ h.server
  perform_handshake-server h late =
      let (h', r) = perform_handshake late now now' h in
      Outcome-server (LetIn h late) h h' r (perform_handshake-Outcome h late)
