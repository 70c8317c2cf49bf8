-- ===== src/Server/Connection/Sessions.antt =====
-- What a connection does to the sessions and to the rooms, from its first byte to its end.
use archforge.Prelude.{
  ℕ, suc, ◌≤◌, ◌≡◌, refl, subst, ◌∙◌, ap, ◌⊎◌, inl, inr, Bool, true, false, String, List, [], ◌∷◌,
  some, Result, ok, err, arith, length, if◌then◌else◌, nat_eq, Bool-cases,
}
use archforge.Prelude.HashMap
use archforge.Protocol.{PlayerId}
use archforge.Transport.{Connection}
use archforge.Session
use archforge.Session.{
  Session, SessionManager, SessionError, Instant, disconnected, new_session, get, already_connected,
}
use archforge.Session.Grace.{is_connected, create_lem}
use archforge.Room.Logic.{GameLogic}
use archforge.Room.Manager.History.{Call, run}
use archforge.Server.{ServerState, ArcforgeError, session}
use archforge.Server.Action.{Handler}
use archforge.Server.Handshake.{perform_handshake}
use archforge.Server.Handshake.Answers.{perform_handshake-server}
use archforge.Server.Handler.{Ready, Ended, running, failed, turn, carry_on, message_loop}
use archforge.Server.Handler.Rooms.{Round, turn-Round}
use archforge.Server.Connection.{
  guard_drop, created, dropped, with_session, start_session, fresh_handler, handle_connection,
}

-- The session of a handler's player, by how the handler's loop stands.
abbrev pub left : PlayerId → String → Instant → Ended → Session
left pid token at running = new_session pid token
left pid token at _ = record (new_session pid token) { state = disconnected at }

-- The session manager has `x` for the player, and for everyone else what it had.
abbrev pub Kept : SessionManager → SessionManager → PlayerId → Session → Type 0
Kept m m' pid x = (q : PlayerId) → get m' q ≡ (if nat_eq.beq pid q then some x else get m q)

module _ {g : GameLogic} {c : Connection} where
  -- What the loop did: the sessions are as they were, and the rooms are as some calls of the manager
  -- leave them, at most `most`.
  abbrev pub Looped : ℕ → Handler g c → Handler g c → Type 0
  Looped most h h' =
      (h'.server.sessions ≡ h.server.sessions)
      × ((calls : List (Call g)) × (h'.server.rooms ≡ run h.server.rooms calls)
          × (length calls ≤ most))

  Looped-then :
      (most : ℕ) (h h' h'' : Handler g c)
      → Round h h'
      → Looped most h' h''
      → Looped (suc most) h h''
  unfolding run
  Looped-then most h h' h'' (same, inl still) (later, (calls, ends, few)) =
      (later ∙ same, (calls, ends ∙ ap (λ m. run m calls) still, omega (arith, few)))
  Looped-then most h h' h'' (same, inr (call, did)) (later, (calls, ends, few)) =
      (later ∙ same, (call ∷ calls, ends ∙ ap (λ m. run m calls) did, omega (arith, few)))

  Looped-end : (most : ℕ) (h : Handler g c) → Looped most h h
  unfolding run
  Looped-end most h = (refl, ([], refl, omega arith))

  carry_on-Looped :
      (most : ℕ) (h h' : Handler g c) (answer : Result ArcforgeError Bool)
      (rest : Handler g c × Ended)
      → Round h h'
      → Looped most h' rest.0
      → Looped (suc most) h (carry_on h' answer rest).0
  unfolding carry_on
  carry_on-Looped most h h' (ok false) rest did later = Looped-then most h h' rest.0 did later
  carry_on-Looped most h h' _ rest did later = Looped-then most h h' h' did (Looped-end most h')

  pub message_loop-Looped :
      (h : Handler g c) (pid : PlayerId) (rounds : List Ready)
      → Looped (length rounds) h (message_loop pid rounds h).0
  unfolding message_loop
  message_loop-Looped h pid [] = Looped-end 0 h
  message_loop-Looped h pid (r ∷ rs) =
      let (h', answer) = turn pid r h in
      carry_on-Looped (length rs) h h' answer (message_loop pid rs h') (turn-Round h pid r)
        (message_loop-Looped h' pid rs)

  guard_drop-Kept :
      (h : Handler g c) (m : SessionManager) (pid : PlayerId) (x : Session) (at : Instant)
      → Kept m h.server.sessions pid x
      → Kept m (guard_drop pid at h).server.sessions pid (record x { state = disconnected at })
  unfolding guard_drop Session.disconnect get
  guard_drop-Kept h m pid x at kept q = ground (
    arith,
    kept q,
    kept pid,
    nat_eq.beq_iff pid pid,
    HashMap.get-insert pid q (record x { state = disconnected at }) h.server.sessions.sessions,
  )

  dropped-Kept :
      (m : SessionManager) (pid : PlayerId) (token : String) (at : Instant) (h : Handler g c)
      (e : Ended)
      → Kept m h.server.sessions pid (new_session pid token)
      → let (h', e') = dropped pid at (h, e) in
        Kept m h'.server.sessions pid (left pid token at e') × (h'.server.rooms ≡ h.server.rooms)
  unfolding dropped guard_drop
  dropped-Kept m pid token at h running kept = (kept, refl)
  dropped-Kept m pid token at h _ kept =
      (guard_drop-Kept h m pid (new_session pid token) at kept, refl)

  -- The connection ends in the error `why`, and nothing has changed.
  abbrev pub TurnedAway : ServerState g → ArcforgeError → Handler g c × Ended → Type 0
  TurnedAway s why (h, e) =
      (e ≡ failed why)
      × ((q : PlayerId) → get h.server.sessions q ≡ get s.sessions q)
      × (h.server.rooms ≡ s.rooms)

  -- The player has a session, connected while the loop runs and disconnected once it has ended, and
  -- the rooms are as calls of the manager leave them, at most one for each round.
  abbrev pub Stayed :
      ServerState g → PlayerId → String → List Ready → Instant → Handler g c × Ended → Type 0
  Stayed s pid token rounds at (h, e) =
      Kept s.sessions h.server.sessions pid (left pid token at e)
      × ((calls : List (Call g)) × (h.server.rooms ≡ run s.rooms calls)
          × (length calls ≤ length rounds))

  -- What becomes of a connection, by the result of its handshake.
  abbrev pub Attended :
      ServerState g
      → String
      → List Ready
      → Instant
      → Result ArcforgeError PlayerId
      → Handler g c × Ended
      → Type 0
  Attended s token rounds at (err why) end = TurnedAway s why end
  Attended s token rounds at (ok pid) end =
      ((is_connected (get s.sessions pid) ≡ true)
        × TurnedAway s (session (already_connected pid)) end)
      ⊎ ((is_connected (get s.sessions pid) ≡ false) × Stayed s pid token rounds at end)

  with_session-Stayed :
      (s : ServerState g) (h : Handler g c) (pid : PlayerId) (token : String) (rounds : List Ready)
      (at : Instant)
      → Kept s.sessions h.server.sessions pid (new_session pid token)
      → h.server.rooms ≡ s.rooms
      → Stayed s pid token rounds at (dropped pid at (message_loop pid rounds h))
  with_session-Stayed s h pid token rounds at kept same =
      let (h', e) = message_loop pid rounds h in
      let (still, (calls, ends, few)) = message_loop-Looped h pid rounds in
      let (held, rooms) =
        dropped-Kept s.sessions pid token at h' e (λ q. ap (λ m. get m q) still ∙ kept q) in
      (held, (calls, rooms ∙ ends ∙ ap (λ m. run m calls) same, few))

  start_session-Attended :
      (h : Handler g c) (token : String) (rounds : List Ready) (at : Instant)
      (r : Result ArcforgeError PlayerId)
      → Attended h.server token rounds at r (start_session token rounds at h r)
  unfolding start_session created
  start_session-Attended h token rounds at (err why) = (refl, (λ q. refl), refl)
  start_session-Attended h token rounds at (ok pid) =
      let m = h.server.sessions in
      let lem = create_lem m pid token in
      let after = record h {
        server = record h.server { sessions = (Session.create m pid token).0 };
      } in
      elim (Bool-cases (is_connected (get m pid))) [
        | inl busy ↦
            let refused : (Session.create m pid token).1 ≡ err (already_connected pid) =
              ground (arith, busy, (lem pid token).0) in
            inl (
              busy,
              rw (refused, with_session) (refl, (λ q. ground (arith, busy, (lem q token).1)), refl),
            )
        | inr free ↦
            let made : (Session.create m pid token).1 ≡ ok (new_session pid token) =
              ground (arith, free, (lem pid token).0) in
            inr (
              free,
              rw (made, with_session)
                  (with_session-Stayed h.server after pid token rounds at
                    (λ q. ground (arith, free, (lem q token).1)) refl),
            )
      ]

module _ {g : GameLogic} (c : Connection) where
  -- A connection whose handshake fails ends with the handshake's error, and one of a player who has a
  -- connected session ends in `AlreadyConnected`; in both cases no session and no room has changed.
  -- Any other connection gives its player a new session, which is connected as long as the
  -- handler runs, and disconnected once it has ended, however it ended; no other session changes,
  -- and the rooms are as calls of the room manager leave them, at most one for each round.
  pub handle_connection-Attended :
      (late : Bool) (now now' : ℕ) (token : String) (rounds : List Ready) (at : Instant)
      (s : ServerState g) (conn : c.Conn)
      → Attended s token rounds at
          (perform_handshake late now now' (fresh_handler {c = c} s conn)).1
          (handle_connection {c = c} late now now' token rounds at s conn)
  unfolding handle_connection
  handle_connection-Attended late now now' token rounds at s conn =
      let first = fresh_handler {c = c} s conn in
      let (h, r) = perform_handshake late now now' first in
      let same = perform_handshake-server now now' first late in
      subst
        (λ (t : ServerState g). Attended t token rounds at r (start_session token rounds at h r))
        same (start_session-Attended h token rounds at r)
