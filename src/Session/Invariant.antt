-- ===== src/Session/Invariant.antt =====
-- The agreement of the session manager's two maps, as an invariant of its operations.
use archforge.Prelude.{
  ◌≡◌, refl, false, Option, none, some, String, inl, inr, arith, nat_eq, string_eq, Option-cases,
  Bool-cases, ltb, ◌==◌,
}
use archforge.Prelude.HashMap
use archforge.Prelude.HashMap.{HashMap}
use archforge.Protocol.{PlayerId}
use archforge.Session.{
  SessionManager, SessionConfig, Session, SessionState, connected, disconnected, expired, Instant,
  new, create, open_session, replace_session, put_session, disconnect, resume, reconnect, expire,
  expire_stale, grace, elapsed, new_session,
}

-- The token of a player's session.
unfoldable pub token_of : SessionManager → PlayerId → Option String
token_of m p = elim (HashMap.get p m.sessions) [ none ↦ none | some s ↦ some s.reconnect_token ]

pub record IsValid (m : SessionManager) : Type 0 where
  pub named : (p : PlayerId) (s : Session) → HashMap.get p m.sessions ≡ some s → s.player_id ≡ p
  pub indexed :
      (p : PlayerId) (t : String) → token_of m p ≡ some t → HashMap.get t m.tokens ≡ some p
  pub owned : (p : PlayerId) (t : String) → HashMap.get t m.tokens ≡ some p → token_of m p ≡ some t
  pub distinct : HashMap.IsDistinct m.sessions

pub new-IsValid : (c : SessionConfig) → IsValid (new c)
unfolding new token_of
new-IsValid c = record {
  named = λ p s h. ground (arith, HashMap.get-new {V = Session} p);
  indexed = λ p t h. ground (arith, HashMap.get-new {V = Session} p);
  owned = λ p t h. ground (arith, HashMap.get-new {V = PlayerId} t);
  distinct = HashMap.new-IsDistinct PlayerId Session;
}

module _ {m : SessionManager} (v : IsValid m) where
  -- A session changes its state and nothing else.
  pub put_session-IsValid :
      (p : PlayerId) (s s' : Session)
      → HashMap.get p m.sessions ≡ some s
      → s'.player_id ≡ s.player_id
      → s'.reconnect_token ≡ s.reconnect_token
      → IsValid (put_session m p s')
  unfolding token_of
  put_session-IsValid p s s' there name token = record {
    named = λ q x h.
        ground (arith, HashMap.get-insert p q s' m.sessions, v.named q x, v.named p s there);
    indexed = λ q t h. ground (arith, HashMap.get-insert p q s' m.sessions, v.indexed q t);
    owned = λ q t h. ground (arith, HashMap.get-insert p q s' m.sessions, v.owned q t);
    distinct = HashMap.insert-IsDistinct p s' m.sessions v.distinct;
  }

  pub disconnect-IsValid : (p : PlayerId) (now : Instant) → IsValid (disconnect m p now).0
  unfolding disconnect
  disconnect-IsValid p now = elim (Option-cases (HashMap.get p m.sessions)) [
    | inl gone ↦ rw (gone, disconnect) v
    | inr (s, there) ↦ rw (there, disconnect) (put_session-IsValid p s _ there refl refl)
  ]

  resume-IsValid :
      (p : PlayerId) (s : Session) (x : SessionState) (now : Instant)
      → HashMap.get p m.sessions ≡ some s
      → IsValid (resume m p s x now).0
  unfolding resume
  resume-IsValid p s connected now there = v
  resume-IsValid p s expired now there = v
  resume-IsValid p s (disconnected since) now there =
      elim (Bool-cases (ltb (grace m) (elapsed since now))) [
        | inl late ↦ rw (late, resume) (put_session-IsValid p s _ there refl refl)
        | inr early ↦ rw (early, resume) (put_session-IsValid p s _ there refl refl)
      ]

  pub reconnect-IsValid : (t : String) (now : Instant) → IsValid (reconnect m t now).0
  unfolding reconnect
  reconnect-IsValid t now = elim (Option-cases (HashMap.get t m.tokens)) [
    | inl gone ↦ rw (gone, reconnect) v
    | inr (p, e) ↦ elim (Option-cases (HashMap.get p m.sessions)) [
      | inl gone ↦ rw (e, reconnect, gone) v
      | inr (s, there) ↦ rw (e, reconnect, there) (resume-IsValid p s s.state now there)
    ]
  ]

-- A new session for `p`, in a state whose maps agree on everybody else.
open_session-IsValid :
    (m : SessionManager) (p : PlayerId) (t : String)
    → ((q : PlayerId) (s : Session) → HashMap.get q m.sessions ≡ some s → s.player_id ≡ q)
    → HashMap.IsDistinct m.sessions
    → HashMap.get t m.tokens ≡ none
    → ((q : PlayerId) (u : String)
        → (p == q) ≡ false
        → token_of m q ≡ some u
        → HashMap.get u m.tokens ≡ some q)
    → ((q : PlayerId) (u : String)
        → HashMap.get u m.tokens ≡ some q
        → ((p == q) ≡ false) × (token_of m q ≡ some u))
    → IsValid (open_session m p t).0
unfolding open_session token_of
open_session-IsValid m p t named distinct fresh others owned =
    let s = new_session p t in
    record {
      named = λ q x h. ground (arith, HashMap.get-insert p q s m.sessions, named q x);
      indexed = λ q u h. ground (
        arith,
        HashMap.get-insert p q s m.sessions,
        HashMap.get-insert t u p m.tokens,
        others q u,
        string_eq.beq_iff t u,
      );
      owned = λ q u h. ground (
        arith,
        HashMap.get-insert p q s m.sessions,
        HashMap.get-insert t u p m.tokens,
        owned q u,
        string_eq.beq_iff t u,
      );
      distinct = HashMap.insert-IsDistinct p s m.sessions distinct;
    }

module _ {m : SessionManager} (v : IsValid m) where
  replace_session-IsValid :
      (p : PlayerId) (t : String) (s : Session) (x : SessionState)
      → HashMap.get t m.tokens ≡ none
      → HashMap.get p m.sessions ≡ some s
      → IsValid (replace_session m p t s x).0
  unfolding replace_session token_of
  replace_session-IsValid p t s connected fresh there = v
  replace_session-IsValid p t s _ fresh there =
      let old = s.reconnect_token in
      open_session-IsValid (record m { tokens = HashMap.remove old m.tokens }) p t v.named
        v.distinct (ground (arith, HashMap.get-remove old t m.tokens))
        (λ q u ne h. ground (
          arith,
          HashMap.get-remove old u m.tokens,
          v.indexed q u,
          v.indexed p old,
          string_eq.beq_iff old u,
        ))
        (λ q u h.
          ground (arith, HashMap.get-remove old u m.tokens, v.owned q u, string_eq.beq_iff old u))

  -- A new session under a token that nobody holds.
  pub create-IsValid :
      (p : PlayerId) (t : String) → HashMap.get t m.tokens ≡ none → IsValid (create m p t).0
  unfolding create token_of
  create-IsValid p t fresh = elim (Option-cases (HashMap.get p m.sessions)) [
    | inl gone ↦
        rw (gone, create)
          (open_session-IsValid m p t v.named v.distinct fresh (λ q u ne h. v.indexed q u h)
            (λ q u h. ground (arith, v.owned q u)))
    | inr (s, there) ↦ rw (there, create) (replace_session-IsValid p t s s.state fresh there)
  ]

  pub expire_stale-IsValid : (now : Instant) → IsValid (expire_stale m now).0
  unfolding expire_stale token_of
  expire_stale-IsValid now =
      let f = expire (grace m) now in
      record {
        named = λ q x h. elim (Option-cases (HashMap.get q m.sessions)) [
          | inl gone ↦ ground (arith, HashMap.get-alter f q m.sessions)
          | inr (s, there) ↦ ground (arith, HashMap.get-alter f q m.sessions, v.named q s there)
        ];
        indexed = λ q u h. ground (arith, HashMap.get-alter f q m.sessions, v.indexed q u);
        owned = λ q u h. ground (arith, HashMap.get-alter f q m.sessions, v.owned q u);
        distinct = HashMap.alter-IsDistinct f m.sessions v.distinct;
      }
