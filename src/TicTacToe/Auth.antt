-- ===== src/TicTacToe/Auth.antt =====
-- examples/tic-tac-toe/src/main.rs: the authenticator and the server of `main`.
use archforge.Prelude.{ℕ, ◌^◌, ◌<◌, ◌≡◌, String, Result, ok, ok_or}
use archforge.Protocol.{PlayerId}
use archforge.Protocol.Codec.{Codec}
use archforge.Protocol.Text.{decimal}
use archforge.Protocol.Decimal.{parse_u64, parse_u64-decimal}
use archforge.Transport.{ConnectionId}
use archforge.Session.{Authenticator, SessionError, auth_failed}
use archforge.Server
use archforge.Server.{ArcforgeError, ArcforgeServer}
use archforge.TicTacToe.{tic_tac_toe}

-- `TokenAuth::authenticate`.
unfoldable pub authenticate : String → Result SessionError PlayerId
authenticate token = ok_or (parse_u64 token) (auth_failed "token must be a number")

unfoldable pub token_auth : Authenticator
unfolding authenticate
token_auth = record { authenticate = authenticate }

-- The server that `main` builds.
unfoldable pub server :
    (String → Result String (Unit {0}))
    → ConnectionId
    → ℕ
    → Codec tic_tac_toe
    → Result ArcforgeError (ArcforgeServer tic_tac_toe)
unfolding token_auth
server bound next_connection_id next_room_id codec =
    Server.build (Server.bind Server.new "0.0.0.0:8080") bound next_connection_id next_room_id
      token_auth codec

-- The number of a player, printed in decimal, is a token for that player, for each number that a
-- `u64` can hold.
pub authenticate-decimal : (pid : PlayerId) → pid < 2 ^ 64 → authenticate (decimal pid) ≡ ok pid
unfolding authenticate
authenticate-decimal pid h = rw (parse_u64-decimal pid h)
