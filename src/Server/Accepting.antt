-- ===== src/Server/Accepting.antt =====
-- The accept loop.
use archforge.Prelude.{
  ℕ, zero, suc, ◌+◌, ◌%◌, ◌^◌, ◌<◌, ◌≡◌, refl, ap, String, List, [], ◌∷◌, Result, ok, err, map,
  length, arith,
}
use archforge.Transport.{Message, ConnectionId, WebSocketTransport, accept}
use archforge.Room.Logic.{GameLogic}
use archforge.Server.{ArcforgeServer, accepting, run}

-- The streams that the listener accepts.
unfoldable pub accepted :
    List (Result String (List (Result String Message))) → List (List (Result String Message))
accepted [] = []
accepted (ok s ∷ rest) = s ∷ accepted rest
accepted (err e ∷ rest) = accepted rest

-- So many ids of type `u64`, from `n` on.
unfoldable pub ids_from : ℕ → ℕ → List ConnectionId
ids_from n zero = []
ids_from n (suc k) = n % 2 ^ 64 ∷ ids_from (suc n) k

run_at :
    (n : ℕ) (t : WebSocketTransport) (streams : List (Result String (List (Result String Message))))
    → t.next_connection_id ≡ n % 2 ^ 64
    → let conns = accepting t streams in
      (map (λ c. c.incoming) conns ≡ accepted streams)
      × (map (λ c. c.id) conns ≡ ids_from n (length conns))
unfolding accepting accept accepted ids_from
run_at n t [] e = (refl, refl)
run_at n t (err x ∷ streams) e = run_at n t streams e
run_at n t (ok s ∷ streams) e =
    let next = record t { next_connection_id = (t.next_connection_id + 1) % 2 ^ 64 } in
    let (fed, named) = run_at (suc n) next streams (omega (arith, e)) in
    (ap (λ l. s ∷ l) fed, ground (arith, e, named))

-- The server starts one handler for each stream that is accepted, in order, and none else; a
-- stream that fails does not end the loop. The connections are numbered on from the listener's
-- counter, as `u64`, with no id used up by a failure.
pub run-ids :
    {g : GameLogic} (s : ArcforgeServer g)
    (streams : List (Result String (List (Result String Message))))
    → s.listener.next_connection_id < 2 ^ 64
    → let conns = run s streams in
      (map (λ c. c.incoming) conns ≡ accepted streams)
      × (map (λ c. c.id) conns ≡ ids_from s.listener.next_connection_id (length conns))
unfolding run
run-ids s streams small =
    run_at s.listener.next_connection_id s.listener streams (omega (arith, small))
