-- ===== src/Checks/Game.antt =====
-- A small game for the tests: players add to a total, and the game is over at ten.
use archforge.Prelude.{ℕ, ◌+◌, ◌∷◌, [], leb, ◌==◌, if◌then◌else◌, ok, err}
use archforge.Protocol.{all}
use archforge.Room.State.{default_config}
use archforge.Room.Logic.{GameLogic, default_tick, default_on_player}

abbrev pub adding : GameLogic
adding = record {
  Config = ℕ;
  State = ℕ;
  ClientMessage = ℕ;
  ServerMessage = ℕ;
  default_config = 0;
  init = λ start players. start;
  handle_message = λ total p n. (total + n, (all, n) ∷ []);
  is_finished = λ total. leb 10 total;
  tick = default_tick;
  validate_message = λ total p n. if n == 0 then err "nothing to add" else ok tt;
  on_player_disconnect = default_on_player;
  on_player_reconnect = default_on_player;
  room_config = default_config;
}
