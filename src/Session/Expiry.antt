-- ===== src/Session/Expiry.antt =====
-- The sweeps: `expire_stale` and `cleanup_expired`.
use archforge.Prelude.{
  ℕ, ◌≤◌, ◌≡◌, refl, ◌⊎◌, Bool, true, false, List, [], ◌∷◌, Option, none, some, inl, inr, arith,
  nat_eq, string_eq, if◌then◌else◌, Option-cases, elem,
}
use mathlib.Core.Option
use archforge.Prelude.HashMap
use archforge.Prelude.HashMap.{HashMap}
use archforge.Protocol.{PlayerId}
use archforge.Session.{
  SessionManager, Session, SessionState, connected, disconnected, expired, Instant, reconnect,
  resume, expire, expire_stale, is_stale, stale_ids, is_expired, cleanup_expired, grace, elapsed,
  get,
}
use archforge.Session.Invariant.{IsValid, token_of, expire_stale-IsValid}
use archforge.Session.Cleanup.{dead_iff, get-drop_tokens}
use archforge.Session.Grace.{reconnect-resume}

resume-expire :
    (m n : SessionManager) (p : PlayerId) (s : Session) (x : SessionState) (now : Instant)
    → m.config ≡ n.config
    → s.state ≡ x
    → (resume m p (expire (grace n) now s) (expire (grace n) now s).state now).1
      ≡ (resume n p s x now).1
unfolding resume expire
resume-expire m n p s connected now c e = ground arith
resume-expire m n p s expired now c e = ground arith
resume-expire m n p s (disconnected since) now c e = ground arith

-- The sweep of the stale sessions changes no answer: whoever reconnects at the time of the sweep is
-- told the same with it and without it.
reconnect-expire_stale :
    (m : SessionManager) (p : PlayerId) (s : Session) (now : Instant)
    → IsValid m
    → get m p ≡ some s
    → (reconnect (expire_stale m now).0 s.reconnect_token now).1
      ≡ (reconnect m s.reconnect_token now).1
unfolding get expire expire_stale
reconnect-expire_stale m p s now v there =
    let swept = (expire_stale m now).0 in
    let s' = expire (grace m) now s in
    let found : HashMap.get p swept.sessions ≡ some s' =
      ground (arith, there, HashMap.get-alter (expire (grace m) now) p m.sessions) in
    let same : s'.reconnect_token ≡ s.reconnect_token = ground arith in
    ground (
      arith,
      same,
      reconnect-resume swept p s' now (expire_stale-IsValid v now) found,
      reconnect-resume m p s now v there,
      resume-expire swept m p s s.state now refl refl,
    )

-- Whether the session of a player is stale.
abbrev pub stale_at : ℕ → Instant → Option Session → Bool
stale_at g now none = false
stale_at g now (some s) = is_stale g now s.state

named-tail :
    (q : PlayerId) (s : Session) (es : List (PlayerId × Session))
    → HashMap.find q es ≡ none
    → ((r : PlayerId) (x : Session) → HashMap.find r ((q, s) ∷ es) ≡ some x → x.player_id ≡ r)
    → (r : PlayerId) (x : Session) → HashMap.find r es ≡ some x
    → x.player_id ≡ r
unfolding HashMap.find
named-tail q s es d named r x h = named r x (ground (arith, nat_eq.beq_iff q r))

elem-stale_ids :
    (g : ℕ) (now : Instant) (p : PlayerId) (es : List (PlayerId × Session))
    → HashMap.Distinct es
    → ((q : PlayerId) (s : Session) → HashMap.find q es ≡ some s → s.player_id ≡ q)
    → elem p (stale_ids g now es) ≡ stale_at g now (HashMap.find p es)
unfolding HashMap.Distinct HashMap.find stale_ids elem
elem-stale_ids g now p [] d named = refl
elem-stale_ids g now p ((q, s) ∷ es) d named =
    ground (arith, elem-stale_ids g now p es d.1 (named-tail q s es d.0 named), named q s, d.0)

abbrev pub as_expired : Session → Session
as_expired s = record s { state = expired }

-- The sweep reports exactly the players whose sessions it expires, those disconnected for longer
-- than the grace period, and leaves every other session as it is.
pub expire_stale_lem :
    (m : SessionManager) (now : Instant) (p : PlayerId)
    → IsValid m
    → let (m', ids) = expire_stale m now in
      (elem p ids ≡ stale_at (grace m) now (get m p))
      × (get m' p ≡ (if elem p ids then Option.map as_expired (get m p) else get m p))
unfolding expire_stale get expire HashMap.get HashMap.IsDistinct
expire_stale_lem m now p v = ground (
  arith,
  elem-stale_ids (grace m) now p m.sessions.entries v.distinct v.named,
  HashMap.get-alter (expire (grace m) now) p m.sessions,
)

-- The clean-up removes exactly the expired sessions, each with its token, and leaves every other
-- session and its token as they are.
pub cleanup_expired_lem :
    (m : SessionManager) (p : PlayerId) (s : Session)
    → IsValid m
    → get m p ≡ some s
    → let m' = cleanup_expired m in
      (get m' p ≡ (if is_expired s.state then none else some s))
      × (HashMap.get s.reconnect_token m'.tokens ≡ (if is_expired s.state then none else some p))
unfolding cleanup_expired get token_of
cleanup_expired_lem m p s v there = ground (
  arith,
  there,
  HashMap.get-retain (λ _ x. if is_expired x.state then false else true) p m.sessions,
  get-drop_tokens s.reconnect_token m.sessions.entries m.tokens,
  dead_iff v p s there,
  v.indexed p s.reconnect_token,
)

sweep_at :
    (m : SessionManager) (now : Instant) (old s : Session) (x : SessionState)
    → old.state ≡ x
    → HashMap.kept {K = PlayerId}
        (λ _ y. if is_expired y.state then false else true)
        0
        (some (expire (grace m) now old))
      ≡ some s
    → (s.state ≡ connected)
      ⊎ ((since : Instant) × (s.state ≡ disconnected since) × (elapsed since now ≤ grace m))
unfolding expire is_expired
sweep_at m now old s connected e h = inl (ground arith)
sweep_at m now old s expired e h = ground arith
sweep_at m now old s (disconnected since) e h = inr (since, ground arith, ground arith)

-- After a sweep and a clean-up every session left is connected, or was cut off no longer ago than
-- the grace period.
pub sweep_leaves :
    (m : SessionManager) (now : Instant) (p : PlayerId) (s : Session)
    → get (cleanup_expired (expire_stale m now).0) p ≡ some s
    → (s.state ≡ connected)
      ⊎ ((since : Instant) × (s.state ≡ disconnected since) × (elapsed since now ≤ grace m))
unfolding cleanup_expired expire_stale get expire
sweep_leaves m now p s h = elim (Option-cases (HashMap.get p m.sessions)) [
  | inl gone ↦ ground (arith, HashMap.get-alter f p m.sessions, HashMap.get-retain live p swept)
  | inr (old, there) ↦
      sweep_at m now old s old.state refl
        (ground (arith, there, HashMap.get-alter f p m.sessions, HashMap.get-retain live p swept))
]
  where
    live : PlayerId → Session → Bool
    live _ x = if is_expired x.state then false else true

    f : Session → Session
    f = expire (grace m) now

    swept : HashMap PlayerId Session
    swept = HashMap.alter f m.sessions
