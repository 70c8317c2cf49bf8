-- ===== src/Session/Ledger/Steps.antt =====
-- Each call of the session manager against the ledger.
use mathlib.Core.Option
use mathlib.Core.Path.{fun_ext}
use archforge.Prelude.{
  ℕ, ◌*◌, ◌^◌, ◌≡◌, refl, sym, subst, ◌∙◌, ap, true, false, List, [], ◌∷◌, none, some, err, String,
  inl, inr, arith, nat_eq, string_eq, if◌then◌else◌, Option-cases, ◌==◌,
}
use archforge.Prelude.HashMap
use archforge.Protocol.{PlayerId}
use archforge.Session
use archforge.Session.{
  SessionManager, Session, SessionState, connected, disconnected, expired, Instant, get, grace,
  new_session, is_expired, invalid_token,
}
use archforge.Session.Invariant.{
  IsValid, token_of, create-IsValid, disconnect-IsValid, reconnect-IsValid, expire_stale-IsValid,
}
use archforge.Session.Cleanup.{cleanup_expired-IsValid}
use archforge.Session.Grace.{holds, create_lem, resume-Resumed}
use archforge.Session.Expiry.{expire_stale_lem}
use archforge.Session.Ledger.{
  Call, Answer, create, disconnect, reconnect, expire_stale, cleanup_expired, step, run, Ledger,
  in_state, aged, evolve, evolve_all, verdict, Answered, DrewFresh, AllFresh, AllAnswered,
}

-- A call keeps the maps in agreement and does and answers what the ledger says.
abbrev Keeps : SessionManager → Call → SessionManager × Answer → Type 0
Keeps m c (m', a) =
    IsValid m'
    × (m'.config ≡ m.config)
    × ((q : PlayerId) → get m' q ≡ evolve (grace m) c q (get m q))
    × Answered (grace m) (get m) c a

create-config :
    (m : SessionManager) (p : PlayerId) (t : String) → (Session.create m p t).0.config ≡ m.config
unfolding Session.create
create-config m p t = ground arith

expire-aged :
    (g : ℕ) (now : Instant) (s : Session) (x : SessionState)
    → s.state ≡ x
    → Session.expire g now s ≡ in_state (aged g now) s
unfolding Session.expire Session.is_stale
expire-aged g now s connected e = ground (arith, e)
expire-aged g now s expired e = ground (arith, e)
expire-aged g now s (disconnected since) e = ground (arith, e)

expire_stale-aged :
    (m : SessionManager) (now : Instant) (q : PlayerId)
    → get (Session.expire_stale m now).0 q ≡ Option.map (in_state (aged (grace m) now)) (get m q)
unfolding get Session.expire_stale
expire_stale-aged m now q = elim (Option-cases (HashMap.get q m.sessions)) [
  | inl gone ↦ ground (arith, gone, HashMap.get-alter (Session.expire (grace m) now) q m.sessions)
  | inr (s, there) ↦ ground (
    arith,
    there,
    HashMap.get-alter (Session.expire (grace m) now) q m.sessions,
    expire-aged (grace m) now s s.state refl,
  )
]

holds_iff :
    (m : SessionManager) (t : String) (q : PlayerId)
    → (holds t (get m q) ≡ true → token_of m q ≡ some t)
      × (token_of m q ≡ some t → holds t (get m q) ≡ true)
unfolding get token_of
holds_iff m t q = elim (Option-cases (HashMap.get q m.sessions)) [
  | inl gone ↦ ((λ h. ground (arith, gone, h)), (λ h. ground (arith, gone, h)))
  | inr (s, there) ↦ (
    (λ h. ground (arith, there, h, string_eq.beq_iff s.reconnect_token t)),
    (λ h. ground (arith, there, h, string_eq.beq_iff s.reconnect_token t)),
  )
]

module _ {m : SessionManager} (v : IsValid m) where
  token-free :
      (t : String) → ((q : PlayerId) → holds t (get m q) ≡ false) → HashMap.get t m.tokens ≡ none
  unfolding get token_of
  token-free t free = elim (Option-cases (HashMap.get t m.tokens)) [
    | inl gone ↦ gone
    | inr (q, there) ↦ ground (arith, free q, v.owned q t there, string_eq.beq_iff t t)
  ]

  create-Keeps :
      (p : PlayerId) (t : String)
      → ((q : PlayerId) → holds t (get m q) ≡ false)
      → Keeps m (create p t) (step m (create p t))
  unfolding step evolve Answered
  create-Keeps p t free = (
    create-IsValid v p t (token-free t free),
    create-config m p t,
    (λ q. ground (arith, (create_lem m p t q t).1, nat_eq.beq_iff p q)),
    (create_lem m p t p t).0,
  )

  disconnect-Keeps :
      (p : PlayerId) (now : Instant) → Keeps m (disconnect p now) (step m (disconnect p now))
  unfolding step evolve Answered Session.disconnect get
  disconnect-Keeps p now = elim (Option-cases (HashMap.get p m.sessions)) [
    | inl gone ↦ (
      disconnect-IsValid v p now,
      ground arith,
      (λ q. ground (arith, gone, nat_eq.beq_iff p q)),
      ground (arith, gone),
    )
    | inr (s, there) ↦ (
      disconnect-IsValid v p now,
      ground arith,
      (λ q. ground (
        arith,
        there,
        nat_eq.beq_iff p q,
        HashMap.get-insert p q (record s { state = disconnected now }) m.sessions,
      )),
      ground (arith, there),
    )
  ]

  expire_stale-Keeps : (now : Instant) → Keeps m (expire_stale now) (step m (expire_stale now))
  unfolding step evolve Answered
  expire_stale-Keeps now = (
    expire_stale-IsValid v now,
    unfold Session.expire_stale in refl,
    (λ q. expire_stale-aged m now q),
    (λ q. (expire_stale_lem m now q v).0),
  )

  cleanup_expired-Keeps : Keeps m cleanup_expired (step m cleanup_expired)
  unfolding step evolve Answered Session.cleanup_expired get is_expired
  cleanup_expired-Keeps = (
    cleanup_expired-IsValid v,
    refl,
    (λ q. ground (
      arith,
      HashMap.get-retain (λ _ s. if is_expired s.state then false else true) q m.sessions,
    )),
    tt,
  )

  -- A token leads to the one player who holds it.
  none-holds :
      (t : String) (q : PlayerId) → HashMap.get t m.tokens ≡ none → holds t (get m q) ≡ false
  none-holds t q gone = let (held, _) = holds_iff m t q in ground (arith, gone, held, v.indexed q t)

  some-holds :
      (t : String) (p q : PlayerId) → HashMap.get t m.tokens ≡ some p → holds t (get m q) ≡ (p == q)
  some-holds t p q there =
      let (held, holding) = holds_iff m t q in
      ground (arith, there, held, holding, v.indexed q t, v.owned p t, nat_eq.beq_iff p q)

  holder :
      (t : String) (p : PlayerId)
      → HashMap.get t m.tokens ≡ some p
      → (s : Session) × (get m p ≡ some s) × (s.reconnect_token ≡ t)
  unfolding get token_of
  holder t p there = elim (Option-cases (HashMap.get p m.sessions)) [
    | inl gone ↦ ground (arith, gone, v.owned p t there)
    | inr (s, found) ↦ (s, found, ground (arith, found, v.owned p t there))
  ]

  resume-Keeps :
      (t : String) (p : PlayerId) (s : Session) (x : SessionState) (now : Instant)
      → HashMap.get t m.tokens ≡ some p
      → get m p ≡ some s
      → s.state ≡ x
      → let (m', r) = Session.resume m p s x now in
        (m'.config ≡ m.config)
        × ((q : PlayerId) → get m' q ≡ evolve (grace m) (reconnect t now) q (get m q))
        × (r ≡ verdict (grace m) now p s x)
  unfolding evolve Session.resume
  resume-Keeps t p s connected now there found e =
      (refl, (λ q. ground (arith, found, e, some-holds t p q there, nat_eq.beq_iff p q)), refl)
  resume-Keeps t p s expired now there found e =
      (refl, (λ q. ground (arith, found, e, some-holds t p q there, nat_eq.beq_iff p q)), refl)
  resume-Keeps t p s (disconnected since) now there found e = (
    ground arith,
    (λ q. ground (
      arith,
      found,
      e,
      some-holds t p q there,
      nat_eq.beq_iff p q,
      (resume-Resumed m p q s now (disconnected since)).1,
    )),
    ground arith,
  )

  reconnect-Keeps :
      (t : String) (now : Instant) → Keeps m (reconnect t now) (step m (reconnect t now))
  unfolding step evolve Answered
  reconnect-Keeps t now = elim (Option-cases (HashMap.get t m.tokens)) [
    | inl gone ↦
        let refused : Session.reconnect m t now ≡ (m, err invalid_token) =
          unfold Session.reconnect in ground (arith, gone) in
        (
          reconnect-IsValid v t now,
          ap (λ x. x.0.config) refused,
          (λ q. ground (arith, refused, none-holds t q gone)),
          inr ((λ q. none-holds t q gone), ap (λ x. x.1) refused),
        )
    | inr (p, there) ↦
        let (s, found, same) = holder t p there in
        let resuming : Session.reconnect m t now ≡ Session.resume m p s s.state now =
          unfold Session.reconnect get in ground (arith, there, found) in
        let (config, kept, told) = resume-Keeps t p s s.state now there found refl in
        (
          reconnect-IsValid v t now,
          ap (λ x. x.0.config) resuming ∙ config,
          (λ q. ap (λ x. get x.0 q) resuming ∙ kept q),
          inl (p, s, found, same, ap (λ x. x.1) resuming ∙ told),
        )
  ]

  step-Keeps : (c : Call) → DrewFresh (get m) c → Keeps m c (step m c)
  step-Keeps (create p t) fresh = create-Keeps p t fresh
  step-Keeps (disconnect p now) fresh = disconnect-Keeps p now
  step-Keeps (reconnect t now) fresh = reconnect-Keeps t now
  step-Keeps (expire_stale now) fresh = expire_stale-Keeps now
  step-Keeps cleanup_expired fresh = cleanup_expired-Keeps

-- What the theorem says of a state with the grace period and the ledger.
abbrev Follows : SessionManager → List Call → ℕ × Ledger → Type 0
Follows m cs (g, l) =
    ((q : PlayerId) → get (run m cs) q ≡ evolve_all g cs q (l q)) × AllAnswered g l m cs

-- The session manager implements the ledger: from a state whose maps agree, after any calls, as long
-- as each new session's token is held by nobody, the session of each player is what the calls make of
-- the session that the player had, one after the other, whatever happens to the other sessions; and
-- each call is answered as the sessions of its time tell: `create` by that of the player, and
-- `reconnect` by that of the player who holds the token.
pub run-Ledger :
    (m : SessionManager) (cs : List Call)
    → IsValid m
    → AllFresh (grace m) (get m) cs
    → ((q : PlayerId) → get (run m cs) q ≡ evolve_all (grace m) cs q (get m q))
      × AllAnswered (grace m) (get m) m cs
unfolding run evolve_all AllFresh AllAnswered
run-Ledger m [] v fresh = ((λ q. refl), tt)
run-Ledger m (c ∷ cs) v (new, fresh) =
    let (w, config, does, told) = step-Keeps v c new in
    let m' = (step m c).0 in
    let l' = λ (q : PlayerId). evolve (grace m) c q (get m q) in
    let now : ◌≡◌ {A = ℕ × Ledger} (grace m', get m') (grace m, l') =
      λ i. ((config i).reconnect_grace_secs * 10 ^ 9, fun_ext does i) in
    let fresh' = subst (λ (k : ℕ × Ledger). AllFresh k.0 k.1 cs) (sym now) fresh in
    let (later, all) = subst (Follows m' cs) now (run-Ledger m' cs w fresh') in (later, (told, all))
