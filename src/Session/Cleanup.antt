-- ===== src/Session/Cleanup.antt =====
-- `cleanup_expired` and the agreement of the two maps.
use archforge.Prelude.{
  ◌≡◌, refl, sym, ◌∙◌, Bool, true, false, List, [], ◌∷◌, none, some, String, inl, inr, arith,
  nat_eq, string_eq, if◌then◌else◌, Option-cases, Bool-cases, ◌&&◌,
}
use archforge.Prelude.HashMap
use archforge.Prelude.HashMap.{HashMap}
use archforge.Protocol.{PlayerId}
use archforge.Session.{SessionManager, Session, is_expired, drop_tokens, cleanup_expired}
use archforge.Session.Invariant.{IsValid, token_of}

-- Whether a session that is cleaned up holds the token.
unfoldable pub dead : String → List (PlayerId × Session) → Bool
dead t [] = false
dead t ((_, s) ∷ rest) =
    if is_expired s.state && string_eq.beq s.reconnect_token t then true else dead t rest

pub get-drop_tokens :
    (t : String) (es : List (PlayerId × Session)) (k : HashMap String PlayerId)
    → HashMap.get t (drop_tokens es k) ≡ (if dead t es then none else HashMap.get t k)
unfolding drop_tokens dead
get-drop_tokens t [] k = refl
get-drop_tokens t ((q, s) ∷ es) k = ground (
  arith,
  get-drop_tokens t es (if is_expired s.state then HashMap.remove s.reconnect_token k else k),
  HashMap.get-remove s.reconnect_token t k,
  string_eq.beq_iff s.reconnect_token t,
)

dead_inv :
    (t : String) (es : List (PlayerId × Session))
    → HashMap.Distinct es
    → dead t es ≡ true
    → (q : PlayerId) × (s : Session) × (HashMap.find q es ≡ some s)
      × (is_expired s.state ≡ true)
      × (s.reconnect_token ≡ t)
unfolding dead HashMap.Distinct HashMap.find
dead_inv t [] d h = cc
dead_inv t ((q, s) ∷ es) d h =
    elim (Bool-cases (is_expired s.state && string_eq.beq s.reconnect_token t)) [
      | inl here ↦
          (q, s, ground arith, ground arith, ground (arith, string_eq.beq_iff s.reconnect_token t))
      | inr later ↦
          let (r, x, found, over, held) = dead_inv t es d.1 (ground arith) in
          (r, x, ground (arith, nat_eq.beq_iff q r), over, held)
    ]

dead_of :
    (q : PlayerId) (s : Session) (es : List (PlayerId × Session))
    → HashMap.find q es ≡ some s
    → is_expired s.state ≡ true
    → dead s.reconnect_token es ≡ true
unfolding dead HashMap.find
dead_of q s [] h over = cc
dead_of q s ((r, x) ∷ es) h over =
    ground (arith, dead_of q s es, string_eq.beq_iff s.reconnect_token s.reconnect_token)

module _ {m : SessionManager} (v : IsValid m) where
  -- A token goes with the session that holds it.
  pub dead_iff :
      (p : PlayerId) (s : Session)
      → HashMap.get p m.sessions ≡ some s
      → dead s.reconnect_token m.sessions.entries ≡ is_expired s.state
  unfolding HashMap.get HashMap.IsDistinct token_of
  dead_iff p s there = elim (Bool-cases (is_expired s.state)) [
    | inl over ↦ dead_of p s m.sessions.entries there over ∙ sym over
    | inr good ↦ elim (Bool-cases (dead s.reconnect_token m.sessions.entries)) [
      | inr alive ↦ alive ∙ sym good
      | inl gone ↦
          let (q, x, found, over, held) =
            dead_inv s.reconnect_token m.sessions.entries v.distinct gone in
          ground (arith, v.indexed q s.reconnect_token, v.indexed p s.reconnect_token)
    ]
  ]

  -- The clean-up keeps the two maps in agreement: no token is left without its session.
  pub cleanup_expired-IsValid : IsValid (cleanup_expired m)
  unfolding cleanup_expired token_of
  cleanup_expired-IsValid =
      let p = λ (_ : PlayerId) (s : Session). if is_expired s.state then false else true in
      record {
        named = λ q x h. ground (arith, HashMap.get-retain p q m.sessions, v.named q x);
        indexed = λ q u h. elim (Option-cases (HashMap.get q m.sessions)) [
          | inl gone ↦ ground (arith, HashMap.get-retain p q m.sessions)
          | inr (s, there) ↦ ground (
            arith,
            HashMap.get-retain p q m.sessions,
            get-drop_tokens u m.sessions.entries m.tokens,
            dead_iff q s there,
            v.indexed q u,
          )
        ];
        owned = λ q u h. elim (Option-cases (HashMap.get q m.sessions)) [
          | inl gone ↦ ground (arith, get-drop_tokens u m.sessions.entries m.tokens, v.owned q u)
          | inr (s, there) ↦ ground (
            arith,
            HashMap.get-retain p q m.sessions,
            get-drop_tokens u m.sessions.entries m.tokens,
            dead_iff q s there,
            v.owned q u,
          )
        ];
        distinct = HashMap.retain-IsDistinct p m.sessions v.distinct;
      }
