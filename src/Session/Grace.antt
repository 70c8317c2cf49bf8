-- ===== src/Session/Grace.antt =====
-- Reconnection: who may come back, and until when.
use archforge.Prelude.{
  ◌-◌, ◌≡◌, refl, Bool, true, false, Option, none, some, Result, ok, err, String, inl, inr, arith,
  nat_eq, string_eq, if◌then◌else◌, Option-cases, leb,
}
use archforge.Prelude.HashMap
use archforge.Protocol.{PlayerId}
use archforge.Session.{
  SessionManager, Session, SessionState, SessionError, connected, disconnected, expired, Instant,
  session_expired, already_connected, create, replace_session, new_session, disconnect, resume,
  reconnect, grace, elapsed, get,
}
use archforge.Session.Invariant.{IsValid, token_of, disconnect-IsValid}

abbrev pub is_live : SessionState → Bool
is_live connected = true
is_live _ = false

-- A player who has a connected session.
abbrev pub is_connected : Option Session → Bool
is_connected none = false
is_connected (some s) = is_live s.state

-- The token of the session that a player had.
abbrev pub holds : String → Option Session → Bool
holds t none = false
holds t (some s) = string_eq.beq s.reconnect_token t

create_at :
    (m : SessionManager) (p : PlayerId) (t : String) (q : PlayerId) (u : String) (s : Session)
    (x : SessionState)
    → let (m', r) = replace_session m p t s x in
      (r ≡ (if is_live x then err (already_connected p) else ok (new_session p t)))
      × (get m' q ≡ (
          if is_live x
          then get m q
          else if nat_eq.beq p q
          then some (new_session p t)
          else get m q))
      × (HashMap.get u m'.tokens ≡ (
          if is_live x
          then HashMap.get u m.tokens
          else if string_eq.beq t u
          then some p
          else if string_eq.beq s.reconnect_token u
          then none
          else HashMap.get u m.tokens))
unfolding replace_session get
create_at m p t q u s connected = (refl, refl, refl)
create_at m p t q u s _ =
    let dropped = HashMap.remove s.reconnect_token m.tokens in
    ground (
      arith,
      HashMap.get-insert p q (new_session p t) m.sessions,
      HashMap.get-insert t u p dropped,
      HashMap.get-remove s.reconnect_token u m.tokens,
    )

-- A player with a connected session is refused, and nothing changes. Any other player gets a
-- connected session under the new token, which leads to it; the token of the session that it
-- replaces leads nowhere; nobody else's session or token changes.
pub create_lem :
    (m : SessionManager) (p : PlayerId) (t : String) (q : PlayerId) (u : String)
    → let (m', r) = create m p t in
      let refused = is_connected (get m p) in
      (r ≡ (if refused then err (already_connected p) else ok (new_session p t)))
      × (get m' q ≡ (
          if refused then get m q else if nat_eq.beq p q then some (new_session p t) else get m q))
      × (HashMap.get u m'.tokens ≡ (
          if refused
          then HashMap.get u m.tokens
          else if string_eq.beq t u
          then some p
          else if holds u (get m p)
          then none
          else HashMap.get u m.tokens))
unfolding create get
create_lem m p t q u = elim (Option-cases (HashMap.get p m.sessions)) [
  | inl gone ↦
      let session = new_session p t in
      ground
        (arith, gone, HashMap.get-insert p q session m.sessions, HashMap.get-insert t u p m.tokens)
  | inr (s, there) ↦ rw (there, create) (create_at m p t q u s s.state)
]

-- What `reconnect` makes of the session `s` of the player `p`, by its state; and of the session of
-- `q`.
abbrev pub Resumed :
    SessionManager
    → PlayerId
    → PlayerId
    → Session
    → Instant
    → SessionManager × Result SessionError Session
    → SessionState
    → Type 0
Resumed m p q s now (m', r) connected = (m' ≡ m) × (r ≡ err (already_connected p))
Resumed m p q s now (m', r) expired = (m' ≡ m) × (r ≡ err (session_expired p))
Resumed m p q s now (m', r) (disconnected since) =
    let back = record s { state = connected } in
    let in_time = leb (elapsed since now) (grace m) in
    (r ≡ (if in_time then ok back else err (session_expired p)))
    × (get m' q ≡ (
        if nat_eq.beq p q
        then (if in_time then some back else some (record s { state = expired }))
        else get m q))
    × (m'.tokens ≡ m.tokens)

pub resume-Resumed :
    (m : SessionManager) (p q : PlayerId) (s : Session) (now : Instant) (x : SessionState)
    → Resumed m p q s now (resume m p s x now) x
unfolding resume get
resume-Resumed m p q s now connected = (refl, refl)
resume-Resumed m p q s now expired = (refl, refl)
resume-Resumed m p q s now (disconnected since) = (
  ground arith,
  ground (
    arith,
    HashMap.get-insert p q (record s { state = expired }) m.sessions,
    HashMap.get-insert p q (record s { state = connected }) m.sessions,
  ),
  ground arith,
)

pub reconnect-resume :
    (m : SessionManager) (p : PlayerId) (s : Session) (now : Instant)
    → IsValid m
    → get m p ≡ some s
    → reconnect m s.reconnect_token now ≡ resume m p s s.state now
unfolding reconnect get token_of
reconnect-resume m p s now v there =
    rw (v.indexed p s.reconnect_token (rw (there, token_of)), reconnect, there)

-- The token of a session leads to that session. A connected or expired one is refused, and nothing
-- changes; a disconnected one is connected again if the time since then is at most the grace
-- period, and expires otherwise; no other session and no token changes.
pub reconnect-Resumed :
    (m : SessionManager) (p q : PlayerId) (s : Session) (now : Instant)
    → IsValid m
    → get m p ≡ some s
    → Resumed m p q s now (reconnect m s.reconnect_token now) s.state
reconnect-Resumed m p q s now v there =
    rw (reconnect-resume m p s now v there) (resume-Resumed m p q s now s.state)

-- A player who is cut off at `before` comes back with the token at `now` if and only if the time
-- between is at most the grace period, and then with the session they had, connected. It does not
-- matter in which state that session was: an expired one is brought back too.
pub reconnect-disconnect :
    (m : SessionManager) (p : PlayerId) (s : Session) (before now : Instant)
    → IsValid m
    → get m p ≡ some s
    → let (m', r) = reconnect (disconnect m p before).0 s.reconnect_token now in
      let in_time = leb (now - before) (grace m) in
      let back = record s { state = connected } in
      (r ≡ (if in_time then ok back else err (session_expired p)))
      × (get m' p ≡ (if in_time then some back else some (record s { state = expired })))
unfolding get disconnect
reconnect-disconnect m p s before now v there =
    let cut = record s { state = disconnected before } in
    let w = disconnect-IsValid v p before in
    let found : get (disconnect m p before).0 p ≡ some cut =
      ground (arith, there, HashMap.get-insert p p cut m.sessions) in
    let done = reconnect-Resumed (disconnect m p before).0 p p cut now w found in
    ground (arith, there, done.0, done.1, nat_eq.beq_iff p p)
