-- ===== src/Server/Connection.antt =====
-- crates/arcforge/src/handler.rs: `handle_connection` and its `SessionGuard`. The guard's clean-up runs
-- in a task of its own; here it runs when the handler ends, at the instant `at`.
pub mod Numbering
pub mod Sessions
pub mod Reading
pub mod Rejoin
pub mod Return
pub mod Endings
use archforge.Prelude.{Bool, true, false, List, ℕ, String, Result, ok, err, [], ◌∷◌, none}
use archforge.Protocol.{PlayerId}
use archforge.Transport.{Connection}
use archforge.Session
use archforge.Session.{Session, SessionError, Instant}
use archforge.Room.Logic.{GameLogic}
use archforge.Server.{ArcforgeError, session, ServerState}
use archforge.Server.Action.{Handler}
use archforge.Server.Handshake.{perform_handshake}
use archforge.Server.Handler.{Ready, Ended, closed, running, failed, message_loop}

module _ {g : GameLogic} {c : Connection} where
  -- `SessionGuard::drop`.
  unfoldable pub guard_drop : PlayerId → Instant → Handler g c → Handler g c
  guard_drop pid at h = record h {
    server = record h.server { sessions = (Session.disconnect h.server.sessions pid at).0 };
  }

  -- The guard goes with the handler; a handler that is still in its loop keeps it.
  unfoldable pub dropped : PlayerId → Instant → Handler g c × Ended → Handler g c × Ended
  unfolding guard_drop
  dropped pid at (h, running) = (h, running)
  dropped pid at (h, e) = (guard_drop pid at h, e)

  -- With the session created, or not.
  unfoldable pub with_session :
      PlayerId
      → List Ready
      → Instant
      → Result SessionError Session
      → Handler g c
      → Handler g c × Ended
  unfolding dropped message_loop
  with_session pid rounds at (err e) h = (h, failed (session e))
  with_session pid rounds at (ok s) h = dropped pid at (message_loop pid rounds h)

  -- `create` under the lock of the sessions.
  unfoldable pub created :
      PlayerId → String → Handler g c → Handler g c × Result SessionError Session
  created pid token h =
      let (sessions, r) = Session.create h.server.sessions pid token in
      (record h { server = record h.server { sessions = sessions } }, r)

  unfoldable pub start_session :
      String
      → List Ready
      → Instant
      → Handler g c
      → Result ArcforgeError PlayerId
      → Handler g c × Ended
  unfolding with_session created
  start_session token rounds at h (err e) = (h, failed e)
  start_session token rounds at h (ok pid) =
      let (h', r) = created pid token h in with_session pid rounds at r h'

  -- The handler starts with its number at 1, and listens to no room.
  abbrev pub fresh_handler : ServerState g → c.Conn → Handler g c
  fresh_handler s conn = record { server = s; conn = conn; seq = 1; room_rx = none; sent = [] }

  unfoldable pub handle_connection :
      Bool → ℕ → ℕ → String → List Ready → Instant → ServerState g → c.Conn → Handler g c × Ended
  unfolding perform_handshake start_session
  handle_connection late now now' token rounds at s conn =
      let (h, r) = perform_handshake late now now' (fresh_handler s conn) in
      start_session token rounds at h r
