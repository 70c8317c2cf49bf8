-- ===== src/Session/Ledger.antt =====
-- The session manager seen from far away: a ledger of each player's session. In the specification a
-- session changes by itself, and a token leads to whoever holds it: the two maps are not in it.
pub mod Steps
use mathlib.Core.Option
use archforge.Prelude.{
  ℕ, ◌-◌, ◌≡◌, ◌⊎◌, Bool, true, false, not, ◌&&◌, List, [], ◌∷◌, Option, none, some, Result, ok,
  err, String, is_some, elem, ltb, leb, if◌then◌else◌, nat_eq, ◌==◌,
}
use archforge.Protocol.{PlayerId}
use archforge.Session
use archforge.Session.{
  SessionManager, Session, SessionState, SessionError, connected, disconnected, expired, Instant,
  not_found, invalid_token, session_expired, already_connected, new_session, get, grace,
}
use archforge.Session.Grace.{is_connected, holds}
use archforge.Session.Expiry.{stale_at}

pub data Call : Type 0 where
  create : PlayerId → String → Call
  disconnect : PlayerId → Instant → Call
  reconnect : String → Instant → Call
  expire_stale : Instant → Call
  cleanup_expired : Call

pub data Answer : Type 0 where
  opened : Result SessionError Session → Answer
  ended : Result SessionError (Unit {0}) → Answer
  swept : List PlayerId → Answer
  cleaned : Answer

unfoldable pub step : SessionManager → Call → SessionManager × Answer
step m (create p t) = let (m', r) = Session.create m p t in (m', opened r)
step m (disconnect p now) = let (m', r) = Session.disconnect m p now in (m', ended r)
step m (reconnect t now) = let (m', r) = Session.reconnect m t now in (m', opened r)
step m (expire_stale now) = let (m', ids) = Session.expire_stale m now in (m', swept ids)
step m cleanup_expired = (Session.cleanup_expired m, cleaned)

unfoldable pub run : SessionManager → List Call → SessionManager
unfolding step
run m [] = m
run m (c ∷ cs) = run (step m c).0 cs

-- The session of each player, if the player has one.
abbrev pub Ledger : Type 0
Ledger = PlayerId → Option Session

-- The state of a session whose player comes back with its token; `g` is the grace period.
abbrev pub resumed : ℕ → Instant → SessionState → SessionState
resumed g now (disconnected since) = if leb (now - since) g then connected else expired
resumed g now x = x

-- The state of a session after a sweep.
abbrev pub aged : ℕ → Instant → SessionState → SessionState
aged g now (disconnected since) = if leb (now - since) g then disconnected since else expired
aged g now x = x

abbrev pub in_state : (SessionState → SessionState) → Session → Session
in_state f s = record s { state = f s.state }

abbrev pub without_expired : SessionState → Session → Option Session
without_expired expired s = none
without_expired _ s = some s

-- The session of the player `q` after a call.
unfoldable pub evolve : ℕ → Call → PlayerId → Option Session → Option Session
evolve g (create p t) q s = if p == q && not (is_connected s) then some (new_session p t) else s
evolve g (disconnect p now) q s =
    if p == q then Option.map (in_state (λ _. disconnected now)) s else s
evolve g (reconnect t now) q s = if holds t s then Option.map (in_state (resumed g now)) s else s
evolve g (expire_stale now) q s = Option.map (in_state (aged g now)) s
evolve g cleanup_expired q none = none
evolve g cleanup_expired q (some s) = without_expired s.state s

unfoldable pub evolve_all : ℕ → List Call → PlayerId → Option Session → Option Session
unfolding evolve
evolve_all g [] q s = s
evolve_all g (c ∷ cs) q s = evolve_all g cs q (evolve g c q s)

-- What a player who comes back with the token of the session is told.
abbrev pub verdict : ℕ → Instant → PlayerId → Session → SessionState → Result SessionError Session
verdict g now p s connected = err (already_connected p)
verdict g now p s expired = err (session_expired p)
verdict g now p s (disconnected since) =
    if leb (now - since) g then ok (record s { state = connected }) else err (session_expired p)

-- The answer that the ledger gives to a call.
unfoldable pub Answered : ℕ → Ledger → Call → Answer → Type 0
Answered g l (create p t) (opened r) =
    r ≡ (if is_connected (l p) then err (already_connected p) else ok (new_session p t))
Answered g l (disconnect p now) (ended r) = r ≡ (if is_some (l p) then ok tt else err (not_found p))
Answered g l (reconnect t now) (opened r) =
    ((p : PlayerId) × (s : Session) × (l p ≡ some s)
      × (s.reconnect_token ≡ t)
      × (r ≡ verdict g now p s s.state))
    ⊎ (((p : PlayerId) → holds t (l p) ≡ false) × (r ≡ err invalid_token))
Answered g l (expire_stale now) (swept ids) = (q : PlayerId) → elem q ids ≡ stale_at g now (l q)
Answered g l cleanup_expired cleaned = Unit {0}
Answered g l _ _ = ⊥

-- The random token of a new session is held by nobody.
abbrev pub DrewFresh : Ledger → Call → Type 0
DrewFresh l (create p t) = (q : PlayerId) → holds t (l q) ≡ false
DrewFresh l _ = Unit {0}

unfoldable pub AllFresh : ℕ → Ledger → List Call → Type 0
unfolding evolve
AllFresh g l [] = Unit {0}
AllFresh g l (c ∷ cs) = DrewFresh l c × AllFresh g (λ q. evolve g c q (l q)) cs

-- Each call is answered by the ledger as it is when the call is made.
unfoldable pub AllAnswered : ℕ → Ledger → SessionManager → List Call → Type 0
unfolding evolve step Answered
AllAnswered g l m [] = Unit {0}
AllAnswered g l m (c ∷ cs) =
    Answered g l c (step m c).1 × AllAnswered g (λ q. evolve g c q (l q)) (step m c).0 cs
