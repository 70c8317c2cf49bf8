-- ===== src/Server/System/Paths.antt =====
-- The run of one connection, as steps of the system.
use archforge.Prelude.{
  ℕ, suc, ◌+◌, ◌^◌, ◌≤◌, ◌<◌, ◌≡◌, refl, subst, Bool, true, false, String, List, [], ◌∷◌, none,
  Result, ok, err, arith, length, nat_eq, string_eq,
}
use archforge.Prelude.HashMap
use archforge.Protocol.{PlayerId}
use archforge.Transport.{Connection}
use archforge.Session.{Instant, Session, SessionError}
use archforge.Room.Logic.{GameLogic}
use archforge.Server.{ServerState, ArcforgeError}
use archforge.Server.Action.{Handler}
use archforge.Server.Guards.{count, less, guarded}
use archforge.Server.Handshake.{perform_handshake}
use archforge.Server.Handshake.Answers.{perform_handshake-server}
use archforge.Server.Handler.{Ready, Ended, closed, running, failed, turn, carry_on, message_loop}
use archforge.Server.Connection.{
  guard_drop, created, dropped, with_session, start_session, fresh_handler, handle_connection,
}
use archforge.Server.System.{
  System, guarding, Step, greeted, opened, turned, Reach, start, after, DrewFresh, AllFresh,
  IsSound, Reach-IsSound,
}

-- The guards when a handler has ended, with its guard, or is still in its loop.
abbrev remaining : PlayerId → Ended → List PlayerId → List PlayerId
remaining pid running l = l
remaining pid _ l = less pid l

-- The guards when a connection has come so far: its player has one while its loop runs.
abbrev pub held : Result ArcforgeError PlayerId → Ended → List PlayerId → List PlayerId
held (ok pid) running l = pid ∷ l
held _ _ l = l

first_alive :
    (pid : PlayerId) (x : Session) (l : List PlayerId) → 0 < count pid (guarded pid (ok x) l)
unfolding count guarded
first_alive pid x l = ground arith

module _ {g : GameLogic} (c : Connection) where
  -- At most so many steps, in which no session gets a token that is in use.
  abbrev pub Within : ℕ → System g → System g → Type 0
  Within most s t = (n : ℕ) × (n ≤ most) × ((path : Reach c n s t) × AllFresh path)

  Within-then :
      (most : ℕ) (s t u : System g) (one : Step c s t)
      → DrewFresh one
      → Within most t u
      → Within (suc most) s u
  Within-then most s t u one new (n, few, (path, fresh)) =
      (suc n, omega (arith, few), (after n s t u one path, (new, fresh)))

  Within-end : (most : ℕ) (s : System g) → Within most s s
  Within-end most s = (0, omega arith, (start s, tt))

  -- The end of a handler, with its guard, or without one while its loop runs.
  dropped-Within :
      (most : ℕ) (pid : PlayerId) (at : Instant) (h : Handler g c) (e : Ended) (l : List PlayerId)
      → 0 < count pid l
      → Within
          (suc most)
          (guarding h.server l)
          (guarding (dropped pid at (h, e)).0.server (remaining pid e l))
  unfolding dropped
  dropped-Within most pid at h running l here = Within-end (suc most) (guarding h.server l)
  dropped-Within most pid at h _ l here =
      Within-then most (guarding h.server l) (guarding (guard_drop pid at h).server (less pid l))
        (guarding (guard_drop pid at h).server (less pid l)) (Step.closed h l pid at here) tt
        (Within-end most (guarding (guard_drop pid at h).server (less pid l)))

  -- Where a handler's end leads to.
  abbrev at_end : PlayerId → Instant → List PlayerId → Handler g c × Ended → System g
  at_end pid at l end = guarding (dropped pid at end).0.server (remaining pid end.1 l)

  carry_on-Within :
      (most : ℕ) (h h' : Handler g c) (pid : PlayerId) (at : Instant) (l : List PlayerId)
      (answer : Result ArcforgeError Bool) (rest : Handler g c × Ended)
      (one : Step c (guarding h.server l) (guarding h'.server l))
      → DrewFresh one
      → 0 < count pid l
      → Within (suc most) (guarding h'.server l) (at_end pid at l rest)
      → Within (suc (suc most)) (guarding h.server l) (at_end pid at l (carry_on h' answer rest))
  unfolding carry_on
  carry_on-Within most h h' pid at l (ok false) rest one new here later =
      Within-then (suc most) (guarding h.server l) (guarding h'.server l) (at_end pid at l rest) one
        new later
  carry_on-Within most h h' pid at l (ok true) rest one new here later =
      Within-then (suc most) (guarding h.server l) (guarding h'.server l)
        (at_end pid at l (h', closed)) one new (dropped-Within most pid at h' closed l here)
  carry_on-Within most h h' pid at l (err e) rest one new here later =
      Within-then (suc most) (guarding h.server l) (guarding h'.server l)
        (at_end pid at l (h', failed e)) one new (dropped-Within most pid at h' (failed e) l here)

  message_loop-Within :
      (h : Handler g c) (pid : PlayerId) (at : Instant) (l : List PlayerId) (rounds : List Ready)
      → 0 < count pid l
      → Within
          (suc (length rounds))
          (guarding h.server l)
          (at_end pid at l (message_loop pid rounds h))
  unfolding message_loop
  message_loop-Within h pid at l [] here = dropped-Within 0 pid at h running l here
  message_loop-Within h pid at l (r ∷ rs) here =
      let (h', answer) = turn pid r h in
      carry_on-Within (length rs) h h' pid at l answer (message_loop pid rs h')
        (turned h l pid r here) tt here (message_loop-Within h' pid at l rs here)

  -- At the end of its loop the handler's guard is gone.
  remaining-held :
      (pid : PlayerId) (at : Instant) (l : List PlayerId) (h : Handler g c) (e : Ended)
      → remaining pid e (pid ∷ l) ≡ held (ok pid) (dropped {g = g} {c = c} pid at (h, e)).1 l
  unfolding dropped less
  remaining-held pid at l h running = refl
  remaining-held pid at l h closed = ground arith
  remaining-held pid at l h (failed e) = ground arith

  with_session-Within :
      (h h' : Handler g c) (l : List PlayerId) (pid : PlayerId) (rounds : List Ready) (at : Instant)
      (r : Result SessionError Session)
      (one : Step c (guarding h.server l) (guarding h'.server (guarded pid r l)))
      → DrewFresh one
      → let (h'', end) = with_session pid rounds at r h' in
        Within
          (suc (suc (length rounds)))
          (guarding h.server l)
          (guarding h''.server (held (ok pid) end l))
  unfolding with_session guarded
  with_session-Within h h' l pid rounds at (err why) one new =
      Within-then (suc (length rounds)) (guarding h.server l) (guarding h'.server l)
        (guarding h'.server l) one new (Within-end (suc (length rounds)) (guarding h'.server l))
  with_session-Within h h' l pid rounds at (ok x) one new =
      let (last, end) = message_loop pid rounds h' in
      let done = (dropped pid at (last, end)).0.server in
      let here : 0 < count pid (pid ∷ l) = first_alive pid x l in
      subst (λ k. Within (suc (suc (length rounds))) (guarding h.server l) (guarding done k))
        (remaining-held pid at l last end)
        (Within-then (suc (length rounds)) (guarding h.server l) (guarding h'.server (pid ∷ l))
          (at_end pid at (pid ∷ l) (last, end)) one new
          (message_loop-Within h' pid at (pid ∷ l) rounds here))

  start_session-Within :
      (h : Handler g c) (l : List PlayerId) (token : String) (rounds : List Ready) (at : Instant)
      (r : Result ArcforgeError PlayerId)
      → HashMap.get token h.server.sessions.tokens ≡ none
      → let (h', end) = start_session token rounds at h r in
        Within (suc (suc (length rounds))) (guarding h.server l) (guarding h'.server (held r end l))
  unfolding start_session
  start_session-Within h l token rounds at (err e) fresh =
      Within-end (suc (suc (length rounds))) (guarding h.server l)
  start_session-Within h l token rounds at (ok pid) fresh =
      let (h', r) = created pid token h in
      with_session-Within h h' l pid rounds at r (opened h l pid token) fresh

  -- The whole run of a connection, whose session's token is nobody's, is steps of the system: its
  -- handshake, the creation of its session, its rounds and the clean-up of its guard, as far as it gets.
  -- They are at most three more than its rounds. At the end the guards are those that were there at the
  -- start, and one more for the player who was let in as long as the handler is still in its loop.
  pub handle_connection-Within :
      (late : Bool) (now now' : ℕ) (token : String) (rounds : List Ready) (at : Instant)
      (s : ServerState g) (l : List PlayerId) (conn : c.Conn)
      → HashMap.get token s.sessions.tokens ≡ none
      → let (h, end) = handle_connection {c = c} late now now' token rounds at s conn in
        let (_, admitted) = perform_handshake late now now' (fresh_handler {c = c} s conn) in
        Within
          (suc (suc (suc (length rounds))))
          (guarding s l)
          (guarding h.server (held admitted end l))
  unfolding handle_connection
  handle_connection-Within late now now' token rounds at s l conn fresh =
      let first = fresh_handler {c = c} s conn in
      let (h, r) = perform_handshake late now now' first in
      let same = perform_handshake-server now now' first late in
      let (h', end) = start_session token rounds at h r in
      Within-then (suc (suc (length rounds))) (guarding s l) (guarding h.server l)
        (guarding h'.server (held r end l)) (greeted first l late now now') tt
        (start_session-Within h l token rounds at r (rw same fresh))

  -- A connection leaves the server's managers sound, whatever its client sends, if they were sound,
  -- its token is nobody's, and there are ids for rooms left.
  pub handle_connection-IsSound :
      (late : Bool) (now now' : ℕ) (token : String) (rounds : List Ready) (at : Instant)
      (s : ServerState g) (conn : c.Conn)
      → HashMap.get token s.sessions.tokens ≡ none
      → IsSound s
      → s.rooms.next_room_id + suc (suc (suc (length rounds))) < 2 ^ 64
      → IsSound (handle_connection {c = c} late now now' token rounds at s conn).0.server
  handle_connection-IsSound late now now' token rounds at s conn fresh v room =
      let (h, end) = handle_connection {c = c} late now now' token rounds at s conn in
      let (_, admitted) = perform_handshake late now now' (fresh_handler {c = c} s conn) in
      let (n, few, (path, new)) =
        handle_connection-Within late now now' token rounds at s [] conn fresh in
      Reach-IsSound c n (guarding s []) (guarding h.server (held admitted end [])) path new v
        (omega (arith, few))
