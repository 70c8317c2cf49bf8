-- ===== src/TicTacToe.antt =====
-- examples/tic-tac-toe/src/main.rs: the example game, an instance of the game interface. An array
-- index out of range and a start with fewer than two players, at which the source panics, are given
-- some value: `validate_message` refuses the first, and a room of at least two players excludes the
-- second. The bootstrap of the server and the authenticator of the example are left out.
pub mod Board
pub mod Play
pub mod Start
pub mod Auth
use Prim.Native.Char.{Char}
use archforge.Prelude.{
  ℕ, ◌-◌, String, Bool, true, false, not, ◌&&◌, ◌||◌, List, [], ◌∷◌, Option, none, some, Result, ok,
  err, leb, ◌==◌, if◌then◌else◌, is_some,
}
use archforge.Protocol.{PlayerId, Recipient, all}
use archforge.Room.State.{RoomConfig, default_config}
use archforge.Room.Logic.{GameLogic, default_tick, default_on_player}

pub data Cell : Type 0 where
  empty x o : Cell

unfoldable pub cell_eq : Cell → Cell → Bool
cell_eq empty empty = true
cell_eq x x = true
cell_eq o o = true
cell_eq _ _ = false

-- `[A; 3]`.
pub record Three (A : Type 0) : Type 0 where
  pub at0 : A
  pub at1 : A
  pub at2 : A

unfoldable pub at : {A : Type 0} → Three A → ℕ → A
at t i = if i == 0 then t.at0 else if i == 1 then t.at1 else t.at2

unfoldable pub put : {A : Type 0} → Three A → ℕ → A → Three A
put t i v =
    if i == 0
    then record t { at0 = v }
    else if i == 1
    then record t { at1 = v }
    else record t { at2 = v }

abbrev pub three : {A : Type 0} → A → Three A
three v = record { at0 = v; at1 = v; at2 = v }

abbrev pub Board : Type 0
Board = Three (Three Cell)

pub record State : Type 0 where
  pub board : Board
  pub players : PlayerId × PlayerId
  pub turn : ℕ
  pub winner : Option PlayerId

pub record Move : Type 0 where
  pub row : ℕ
  pub col : ℕ

pub data Event : Type 0 where
  -- player, row, col, mark
  move_made : PlayerId → ℕ → ℕ → Char → Event
  -- winner, reason
  game_over : Option PlayerId → String → Event

unfoldable pub init : Unit {0} → List PlayerId → State
init _ (p ∷ q ∷ _) = record {
  board = three (three empty);
  players = (p, q);
  turn = 0;
  winner = none;
}
init _ _ = record { board = three (three empty); players = (0, 0); turn = 0; winner = none }

-- `state.players[state.turn]`.
unfoldable pub on_turn : State → PlayerId
on_turn s = if s.turn == 0 then s.players.0 else s.players.1

unfoldable pub cell : Board → ℕ → ℕ → Cell
unfolding at
cell b i j = at (at b i) j

-- `board[i][j] = m`.
unfoldable pub mark_cell : Board → ℕ → ℕ → Cell → Board
unfolding at put
mark_cell b i j m = put b i (put (at b i) j m)

unfoldable pub validate_message : State → PlayerId → Move → Result String (Unit {0})
validate_message s sender msg =
    if is_some s.winner
    then err "game is over"
    else if not (on_turn s == sender)
    then err "not your turn"
    else if leb 3 msg.row || leb 3 msg.col
    then err "row and col must be 0-2"
    else if not (cell_eq (cell s.board msg.row msg.col) empty)
    then err "cell is occupied"
    else ok tt

-- `(0..3).all(f)` and `(0..3).any(f)`.
abbrev pub all_of : (ℕ → Bool) → Bool
all_of f = f 0 && f 1 && f 2

abbrev pub any_of : (ℕ → Bool) → Bool
any_of f = f 0 || f 1 || f 2

unfoldable pub check_winner : Board → Cell → Bool
unfolding cell cell_eq
check_winner b m =
    any_of (λ i. all_of (λ j. cell_eq (cell b i j) m))
    || any_of (λ j. all_of (λ i. cell_eq (cell b i j) m))
    || all_of (λ i. cell_eq (cell b i i) m)
    || all_of (λ i. cell_eq (cell b i (2 - i)) m)

unfoldable pub board_full : Board → Bool
unfolding cell cell_eq
board_full b = all_of (λ i. all_of (λ j. not (cell_eq (cell b i j) empty)))

unfoldable pub mark_of : ℕ → Cell
mark_of turn = if turn == 0 then x else o

unfoldable pub handle_message : State → PlayerId → Move → State × List (Recipient × Event)
handle_message s sender msg =
    let mark = mark_of s.turn in
    let mark_char : Char = if s.turn == 0 then "X" else "O" in
    let marked = record s { board = mark_cell s.board msg.row msg.col mark } in
    let made : Recipient × Event = (all, move_made sender msg.row msg.col mark_char) in
    if check_winner marked.board mark
    then (
      record marked { winner = some sender },
      made ∷ (all, game_over (some sender) (if s.turn == 0 then "X wins!" else "O wins!")) ∷ [],
    )
    else if board_full marked.board
    then (record marked { winner = some 0 }, made ∷ (all, game_over none "draw") ∷ [])
    else (record marked { turn = 1 - s.turn }, made ∷ [])

unfoldable pub is_finished : State → Bool
is_finished s = is_some s.winner

abbrev pub tic_tac_toe : GameLogic
tic_tac_toe = record {
  Config = Unit {0};
  State = State;
  ClientMessage = Move;
  ServerMessage = Event;
  default_config = tt;
  init = init;
  handle_message = handle_message;
  is_finished = is_finished;
  tick = default_tick;
  validate_message = validate_message;
  on_player_disconnect = default_on_player;
  on_player_reconnect = default_on_player;
  room_config = record default_config { min_players = 2; max_players = 2 };
}
