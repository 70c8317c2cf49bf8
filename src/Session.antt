-- ===== src/Session.antt =====
-- The session layer, crates/arcforge-session/src: session.rs, error.rs, auth.rs and manager.rs. The
-- clock's reading and the random token are arguments of the calls that take them; an `Instant` and a
-- `Duration` are nanoseconds. Logging is left out.
pub mod Token
pub mod Invariant
pub mod Cleanup
pub mod Grace
pub mod Expiry
pub mod Ledger
use archforge.Prelude.{
  ℕ, ◌-◌, ◌*◌, ◌^◌, String, Bool, true, false, List, [], ◌∷◌, Option, none, some, Result, ok, err,
  ok_or, ltb, nat_eq, string_eq, if◌then◌else◌, ◌>>=◌,
}
use archforge.Prelude.HashMap
use archforge.Prelude.HashMap.{HashMap}
use archforge.Protocol.{PlayerId}

abbrev pub Instant : Type 0
Instant = ℕ

pub record SessionConfig : Type 0 where
  pub reconnect_grace_secs : ℕ

abbrev pub default_config : SessionConfig
default_config = record { reconnect_grace_secs = 30 }

pub data SessionState : Type 0 where
  connected : SessionState
  disconnected : Instant → SessionState
  expired : SessionState

pub record Session : Type 0 where
  pub player_id : PlayerId
  pub state : SessionState
  pub reconnect_token : String

pub data SessionError : Type 0 where
  auth_failed : String → SessionError
  not_found : PlayerId → SessionError
  invalid_token : SessionError
  session_expired : PlayerId → SessionError
  already_connected : PlayerId → SessionError

-- The hook that a server's owner implements.
pub record Authenticator : Type 0 where
  pub authenticate : String → Result SessionError PlayerId

pub record SessionManager : Type 0 where
  pub sessions : HashMap PlayerId Session
  pub tokens : HashMap String PlayerId
  pub config : SessionConfig

unfoldable pub new : SessionConfig → SessionManager
new config = record { sessions = HashMap.new; tokens = HashMap.new; config = config }

-- `Duration::from_secs(self.config.reconnect_grace_secs)`.
abbrev pub grace : SessionManager → ℕ
grace m = m.config.reconnect_grace_secs * 10 ^ 9

-- `since.elapsed()`, which is zero where the clock reads less than `since`.
abbrev pub elapsed : Instant → Instant → ℕ
elapsed since now = now - since

abbrev pub new_session : PlayerId → String → Session
new_session pid token = record { player_id = pid; state = connected; reconnect_token = token }

-- The end of `create`, once the player may have a new session: both maps get it.
unfoldable pub open_session :
    SessionManager → PlayerId → String → SessionManager × Result SessionError Session
open_session m pid token =
    let session = new_session pid token in
    (
      record m {
        tokens = HashMap.insert token pid m.tokens;
        sessions = HashMap.insert pid session m.sessions;
      },
      ok session,
    )

-- The old token goes before the new session comes.
unfoldable pub replace_session :
    SessionManager
    → PlayerId
    → String
    → Session
    → SessionState
    → SessionManager × Result SessionError Session
unfolding open_session
replace_session m pid token existing connected = (m, err (already_connected pid))
replace_session m pid token existing _ =
    open_session (record m { tokens = HashMap.remove existing.reconnect_token m.tokens }) pid token

unfoldable pub create :
    SessionManager → PlayerId → String → SessionManager × Result SessionError Session
unfolding replace_session
create m pid token = elim (HashMap.get pid m.sessions) [
  | none ↦ open_session m pid token
  | some existing ↦ replace_session m pid token existing existing.state
]

abbrev pub put_session : SessionManager → PlayerId → Session → SessionManager
put_session m pid s = record m { sessions = HashMap.insert pid s m.sessions }

unfoldable pub disconnect :
    SessionManager → PlayerId → Instant → SessionManager × Result SessionError (Unit {0})
disconnect m pid now = elim (HashMap.get pid m.sessions) [
  | none ↦ (m, err (not_found pid))
  | some session ↦ (put_session m pid (record session { state = disconnected now }), ok tt)
]

-- The `match` of `reconnect` on the session's state.
unfoldable pub resume :
    SessionManager
    → PlayerId
    → Session
    → SessionState
    → Instant
    → SessionManager × Result SessionError Session
resume m pid session (disconnected since) now =
    if ltb (grace m) (elapsed since now)
    then (put_session m pid (record session { state = expired }), err (session_expired pid))
    else (
      put_session m pid (record session { state = connected }),
      ok (record session { state = connected }),
    )
resume m pid session connected now = (m, err (already_connected pid))
resume m pid session expired now = (m, err (session_expired pid))

unfoldable pub reconnect :
    SessionManager → String → Instant → SessionManager × Result SessionError Session
unfolding resume
reconnect m token now = elim (HashMap.get token m.tokens) [
  | none ↦ (m, err invalid_token)
  | some pid ↦ elim (HashMap.get pid m.sessions) [
    | none ↦ (m, err invalid_token)
    | some session ↦ resume m pid session session.state now
  ]
]

-- Whether `expire_stale` expires a session.
unfoldable pub is_stale : ℕ → Instant → SessionState → Bool
is_stale g now (disconnected since) = ltb g (elapsed since now)
is_stale g now _ = false

unfoldable pub expire : ℕ → Instant → Session → Session
unfolding is_stale
expire g now s = if is_stale g now s.state then record s { state = expired } else s

unfoldable pub stale_ids : ℕ → Instant → List (PlayerId × Session) → List PlayerId
unfolding is_stale
stale_ids g now [] = []
stale_ids g now ((_, s) ∷ rest) =
    if is_stale g now s.state then s.player_id ∷ stale_ids g now rest else stale_ids g now rest

unfoldable pub expire_stale : SessionManager → Instant → SessionManager × List PlayerId
unfolding expire stale_ids
expire_stale m now = (
  record m { sessions = HashMap.alter (expire (grace m) now) m.sessions },
  stale_ids (grace m) now m.sessions.entries,
)

unfoldable pub is_expired : SessionState → Bool
is_expired expired = true
is_expired _ = false

-- The tokens that the closure of `retain` removes.
unfoldable pub drop_tokens :
    List (PlayerId × Session) → HashMap String PlayerId → HashMap String PlayerId
unfolding is_expired
drop_tokens [] t = t
drop_tokens ((_, s) ∷ rest) t =
    drop_tokens rest (if is_expired s.state then HashMap.remove s.reconnect_token t else t)

unfoldable pub cleanup_expired : SessionManager → SessionManager
unfolding drop_tokens is_expired
cleanup_expired m = record m {
  sessions = HashMap.retain (λ _ s. if is_expired s.state then false else true) m.sessions;
  tokens = drop_tokens m.sessions.entries m.tokens;
}

unfoldable pub get : SessionManager → PlayerId → Option Session
get m pid = HashMap.get pid m.sessions

unfoldable pub len : SessionManager → ℕ
len m = HashMap.len m.sessions
