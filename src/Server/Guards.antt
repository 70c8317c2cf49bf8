-- ===== src/Server/Guards.antt =====
-- The guards that are alive, as the list of their players.
use archforge.Prelude.{
  ℕ, suc, ◌-◌, ◌≡◌, false, String, List, [], ◌∷◌, Result, ok, err, if◌then◌else◌, ◌==◌, arith, inl,
  inr, Bool-cases, nat_eq, Option-cases,
}
use archforge.Prelude.HashMap
use archforge.Protocol.{PlayerId}
use archforge.Session
use archforge.Session.{
  SessionManager, Session, SessionError, Instant, disconnected, get, already_connected, new_session,
}
use archforge.Session.Grace.{is_connected, create_lem}

-- How often a player is in a list.
unfoldable pub count : PlayerId → List PlayerId → ℕ
count p [] = 0
count p (q ∷ l) = if p == q then suc (count p l) else count p l

-- The list less the first guard of a player.
unfoldable pub less : PlayerId → List PlayerId → List PlayerId
less p [] = []
less p (q ∷ l) = if p == q then l else q ∷ less p l

-- A session that was created has a guard, and one that was refused has none.
unfoldable pub guarded : PlayerId → Result SessionError Session → List PlayerId → List PlayerId
guarded p (ok s) l = p ∷ l
guarded p (err e) l = l

pub count-less :
    (p q : PlayerId) (l : List PlayerId)
    → count q (less p l) ≡ (if q == p then count q l - 1 else count q l)
unfolding count less
count-less p q [] = ground arith
count-less p q (r ∷ l) = ground (arith, count-less p q l)

-- Each connected session has one guard, and no other player has one.
abbrev pub Agree : SessionManager → List PlayerId → Type 0
Agree m l = (p : PlayerId) → count p l ≡ (if is_connected (get m p) then 1 else 0)

pub create-Agree :
    (m : SessionManager) (l : List PlayerId) (p : PlayerId) (token : String)
    → Agree m l
    → let (m', r) = Session.create m p token in Agree m' (guarded p r l)
unfolding guarded count
create-Agree m l p token v q =
    let lem = create_lem m p token q token in
    elim (Bool-cases (is_connected (get m p))) [
      | inl busy ↦
          let refused : (Session.create m p token).1 ≡ err (already_connected p) =
            ground (arith, busy, lem.0) in
          rw (refused, guarded) (ground (arith, busy, lem.1, v q))
      | inr free ↦
          let made : (Session.create m p token).1 ≡ ok (new_session p token) =
            ground (arith, free, lem.0) in
          rw (made, guarded) (ground (arith, free, lem.1, v q, v p))
    ]

disconnect-connected :
    (m : SessionManager) (p q : PlayerId) (at : Instant)
    → is_connected (get (Session.disconnect m p at).0 q)
      ≡ (if q == p then false else is_connected (get m q))
unfolding Session.disconnect get
disconnect-connected m p q at = elim (Option-cases (HashMap.get p m.sessions)) [
  | inl gone ↦ ground (arith, gone)
  | inr (s, there) ↦
      ground
        (arith, there, HashMap.get-insert p q (record s { state = disconnected at }) m.sessions)
]

pub disconnect-Agree :
    (m : SessionManager) (l : List PlayerId) (p : PlayerId) (at : Instant)
    → Agree m l
    → Agree (Session.disconnect m p at).0 (less p l)
disconnect-Agree m l p at v q = ground (arith, v q, count-less p q l, disconnect-connected m p q at)
