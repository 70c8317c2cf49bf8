-- ===== src/Checks/Sessions.antt =====
-- The session layer: one player who comes, is cut off, and comes back or does not.
use archforge.Prelude.{List, ℕ, ◌≤◌, ◌≡◌, refl, ◌⊎◌, [], ◌∷◌, some, err, nat_eq, string_eq}
use archforge.Prelude.HashMap
use archforge.Session.{
  SessionManager, Session, connected, disconnected, new, new_session, is_expired, get, grace,
  elapsed, default_config, session_expired, open_session, expire, is_stale,
}
use archforge.Session.Invariant.{IsValid, new-IsValid, create-IsValid, disconnect-IsValid}
use archforge.Session
use archforge.Session.Ledger.{
  Call, create, disconnect, reconnect, expire_stale, cleanup_expired, run, evolve_all, AllFresh,
  AllAnswered,
}
use archforge.Session.Ledger.Steps.{run-Ledger}
use archforge.Session.Token.{generate_token}
use archforge.Session.Grace.{Resumed, reconnect-Resumed, reconnect-disconnect}
use archforge.Session.Expiry.{as_expired, sweep_leaves}

token_text : generate_token (0 ∷ 255 ∷ 26 ∷ []) ≡ "00ff1a"
unfolding generate_token
token_text = refl

abbrev nobody : SessionManager
nobody = new default_config

abbrev somebody : SessionManager
somebody = (Session.create nobody 4 "abc").0

-- Cut off at five seconds.
abbrev cut_off : SessionManager
cut_off = (Session.disconnect somebody 4 5_000_000_000).0

abbrev session : Session
session = new_session 4 "abc"

abbrev cut_session : Session
cut_session = record session { state = disconnected 5_000_000_000 }

sessions : Unit {0}
unfolding Session.create Session.disconnect get new open_session HashMap.get HashMap.insert
    HashMap.new Session.expire_stale expire Session.cleanup_expired is_stale is_expired
    HashMap.retain HashMap.alter
sessions = tt

somebody-IsValid : IsValid somebody
somebody-IsValid =
    create-IsValid (new-IsValid default_config) 4 "abc" (unfold new in HashMap.get-new "abc")

valid : IsValid cut_off
valid = disconnect-IsValid somebody-IsValid 4 5_000_000_000

there : get somebody 4 ≡ some session
unfolding sessions
there = refl

cut : get cut_off 4 ≡ some cut_session
unfolding sessions
cut = refl

-- Thirty seconds after five are in time.
reconnect-Resumed_example :
    Resumed cut_off 4 4 cut_session 35_000_000_000
      (Session.reconnect cut_off "abc" 35_000_000_000)
      cut_session.state
reconnect-Resumed_example = reconnect-Resumed cut_off 4 4 cut_session 35_000_000_000 valid cut

reconnect-disconnect_example :
    let (m', r) =
      Session.reconnect (Session.disconnect somebody 4 5_000_000_000).0 "abc" 35_000_000_001 in
    (r ≡ err (session_expired 4)) × (get m' 4 ≡ some (as_expired session))
unfolding sessions
reconnect-disconnect_example =
    reconnect-disconnect somebody 4 session 5_000_000_000 35_000_000_001 somebody-IsValid there

-- One player comes, is cut off and comes back in time; then the sweeps find nothing.
abbrev calls : List Call
calls =
    create 4 "abc"
    ∷ disconnect 4 5_000_000_000
    ∷ reconnect "abc" 35_000_000_000
    ∷ expire_stale 99_000_000_000
    ∷ cleanup_expired
    ∷ []

all_fresh : AllFresh (grace nobody) (get nobody) calls
unfolding AllFresh new get HashMap.get HashMap.new
all_fresh = ((λ q. refl), (tt, (tt, (tt, (tt, tt)))))

run-Ledger_example :
    ((q : ℕ) → get (run nobody calls) q ≡ evolve_all (grace nobody) calls q (get nobody q))
    × AllAnswered (grace nobody) (get nobody) nobody calls
run-Ledger_example = run-Ledger nobody calls (new-IsValid default_config) all_fresh

back_again : evolve_all (grace nobody) calls 4 (get nobody 4) ≡ some session
unfolding evolve_all new get HashMap.get HashMap.new
back_again = refl

left :
    get (Session.cleanup_expired (Session.expire_stale cut_off 35_000_000_000).0) 4
    ≡ some cut_session
unfolding sessions
left = refl

sweep_leaves_example :
    (cut_session.state ≡ connected)
    ⊎ ((since : ℕ) × (cut_session.state ≡ disconnected since)
        × (elapsed since 35_000_000_000 ≤ grace cut_off))
sweep_leaves_example = sweep_leaves cut_off 35_000_000_000 4 cut_session left
