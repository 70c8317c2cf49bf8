-- ===== src/Server/Connection/Numbering.antt =====
-- The numbers of the envelopes that a connection sends.
use archforge.Prelude.{
  ℕ, suc, ◌%◌, ◌^◌, ◌≤◌, ◌≡◌, refl, ◌∙◌, ap, inl, inr, Bool, false, String, List, [], ◌∷◌, Result,
  ok, err, is_ok, arith, length, Result-cases,
}
use archforge.Protocol.{PlayerId, system, handshake_ack}
use archforge.Transport.{Connection}
use archforge.Session
use archforge.Session.{SessionError, Session, Instant}
use archforge.Room.Logic.{GameLogic}
use archforge.Server.{ServerState, ArcforgeError}
use archforge.Server.Action.{Handler, envelope, millis}
use archforge.Server.Handshake.{perform_handshake}
use archforge.Server.Handshake.Answers.{Outcome, LetIn, perform_handshake-Outcome}
use archforge.Server.Handler.{Ready, Ended, running, turn, carry_on, message_loop}
use archforge.Server.Handler.Numbers.{Wrote, turn-Wrote}
use archforge.Server.Action.Sending.{
  Logged, Continued, Continued-cons, Continued-skip, Continued-end,
}
use archforge.Server.Connection.{
  guard_drop, created, dropped, with_session, start_session, fresh_handler, handle_connection,
}

module _ {g : GameLogic} {c : Connection} where
  carry_on-Continued :
      (n most : ℕ) (h h' : Handler g c) (answer : Result ArcforgeError Bool)
      (rest : Handler g c × Ended)
      → h.seq ≡ n % 2 ^ 64
      → Wrote h h' (is_ok answer)
      → ((m : ℕ) → h'.seq ≡ m % 2 ^ 64 → Continued m most h' rest.0)
      → Continued n (suc most) h (carry_on h' answer rest).0
  unfolding carry_on
  carry_on-Continued n most h h' (ok false) rest number (codec, inl (same, seq)) later =
      Continued-skip n most h h' rest.0 codec same (later n (seq ∙ number))
  carry_on-Continued n most h h' (ok false) rest number (codec, inr (b, e, good, num, one, seq))
        later =
      Continued-cons n most h h' rest.0 b e codec good (num ∙ number) one
        (later (suc n) (omega arith))
  carry_on-Continued n most h h' _ rest number (codec, inl (same, seq)) later =
      Continued-skip n most h h' h' codec same (Continued-end n most h')
  carry_on-Continued n most h h' _ rest number (codec, inr (b, e, good, num, one, seq)) later =
      Continued-cons n most h h' h' b e codec good (num ∙ number) one
        (Continued-end (suc n) most h')

  -- The loop numbers what it sends on from the number of the handler, and sends at most one envelope
  -- in a round.
  pub message_loop-Continued :
      (h : Handler g c) (pid : PlayerId) (rounds : List Ready) (n : ℕ)
      → h.seq ≡ n % 2 ^ 64
      → Continued n (length rounds) h (message_loop pid rounds h).0
  unfolding message_loop
  message_loop-Continued h pid [] n number = Continued-end n 0 h
  message_loop-Continued h pid (r ∷ rs) n number =
      let (h', answer) = turn pid r h in
      carry_on-Continued n (length rs) h h' answer (message_loop pid rs h') number
        (turn-Wrote h pid r) (message_loop-Continued h' pid rs)

  -- The number and the log of a handler do not change when the sessions do.
  guarded-Continued :
      (n most : ℕ) (h : Handler g c) (pid : PlayerId) (at : Instant) (end : Handler g c × Ended)
      → Continued n most h end.0
      → Continued n most h (dropped pid at end).0
  unfolding dropped guard_drop
  guarded-Continued n most h pid at (h', running) done = done
  guarded-Continued n most h pid at (h', _) done = done

  start_session-Continued :
      (h : Handler g c) (n : ℕ) (pid : PlayerId) (token : String) (rounds : List Ready)
      (at : Instant)
      → h.seq ≡ n % 2 ^ 64
      → Continued n (length rounds) h (start_session token rounds at h (ok pid)).0
  unfolding start_session created
  start_session-Continued h n pid token rounds at number =
      let (sessions, r) = Session.create h.server.sessions pid token in
      let h' = record h { server = record h.server { sessions = sessions } } in
      elim (Result-cases r) [
        | inl (x, made) ↦
            rw (made, with_session)
              (guarded-Continued n (length rounds) h pid at (message_loop pid rounds h')
                (message_loop-Continued h' pid rounds n number))
        | inr (why, refused) ↦ rw (refused, with_session) (Continued-end n (length rounds) h)
      ]

  outcome-Continued :
      (K : PlayerId → Type 0) (h h' : Handler g c) (now now' : ℕ) (token : String)
      (rounds : List Ready) (at : Instant) (r : Result ArcforgeError PlayerId)
      → h.seq ≡ 1
      → Outcome now now' K h h' r
      → Continued 0 (suc (length rounds)) h (start_session token rounds at h' r).0
  unfolding start_session envelope
  outcome-Continued K h h' now now' token rounds at (ok pid) one
        (known, server, seq, (b, coded, more)) =
      let e = envelope 0 now (system (handshake_ack pid (millis now'))) in
      Continued-cons 0 (length rounds) h h' (start_session token rounds at h' (ok pid)).0 b e
        (ap (λ s. s.codec) server) coded refl more
        (start_session-Continued h' 1 pid token rounds at (seq ∙ one))
  outcome-Continued K h h' now now' token rounds at (err why) one
        (server, (bs, more, logged, few)) =
      (bs, more, logged, omega (arith, few))

module _ {g : GameLogic} (c : Connection) where
  -- Whatever a connection sends, and however it ends, is the bytes of envelopes that are numbered
  -- 0, 1, 2 and so on, as `u64`, in the order in which they were sent: the answer to the handshake
  -- has the number 0, and each round of the loop sends at most one envelope.
  pub handle_connection-Logged :
      (late : Bool) (now now' : ℕ) (token : String) (rounds : List Ready) (at : Instant)
      (s : ServerState g) (conn : c.Conn)
      → let sent = (handle_connection {c = c} late now now' token rounds at s conn).0.sent in
        Logged s.codec.envelope 0 sent × (length sent ≤ suc (length rounds))
  unfolding handle_connection
  handle_connection-Logged late now now' token rounds at s conn =
      let first = fresh_handler {c = c} s conn in
      let (h, r) = perform_handshake late now now' first in
      let (bs, same, logged, few) =
        outcome-Continued (LetIn first late) first h now now' token rounds at r refl
          (perform_handshake-Outcome now now' first late) in
      rw same (logged, few)
