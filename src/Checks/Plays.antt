-- ===== src/Checks/Plays.antt =====
-- A game of tic-tac-toe: X takes the top row.
use archforge.Prelude.{nat_eq, ℕ, ◌+◌, ◌≡◌, refl, List, [], ◌∷◌, none, some, ok, err, arith}
use archforge.Protocol.{PlayerId}
use archforge.Room.Actor
use archforge.Room.Actor.{RoomActor}
use archforge.Room.Actor.Invariant
use archforge.Room.Actor.Invariant.{handle_join-IsValid, initial-IsValid}
use archforge.TicTacToe.{
  State, Move, empty, x, o, cell, cell_eq, at, put, mark_cell, mark_of, init, on_turn,
  validate_message, handle_message, check_winner, board_full, tic_tac_toe,
}
use archforge.Protocol.Text.{decimal}
use archforge.Protocol.Decimal.{parse_u64}
use archforge.Session.{auth_failed}
use archforge.TicTacToe.Auth.{authenticate, authenticate-decimal}
use archforge.TicTacToe.Board.{count}
use archforge.TicTacToe.Play.{
  IsFair, IsAccepted, play, play-IsFair, handle_message-cell, validate_message-can_play,
}

abbrev move : ℕ → ℕ → Move
move r c = record { row = r; col = c }

abbrev start : State
start = init tt (1 ∷ 2 ∷ [])

abbrev moves : List (PlayerId × Move)
moves = (1, move 0 0) ∷ (2, move 1 0) ∷ (1, move 0 1) ∷ (2, move 1 1) ∷ []

plays : Unit {0}
unfolding play init on_turn validate_message handle_message check_winner board_full cell cell_eq at
    put mark_cell mark_of
plays = tt

abbrev four_moves : State
four_moves = record {
  board = record {
    at0 = record { at0 = x; at1 = x; at2 = empty };
    at1 = record { at0 = o; at1 = o; at2 = empty };
    at2 = record { at0 = empty; at1 = empty; at2 = empty };
  };
  players = (1, 2);
  turn = 0;
  winner = none;
}

played : play start moves ≡ some four_moves
unfolding plays
played = refl

play-IsFair_example : IsFair four_moves × (count empty four_moves.board + 4 ≡ 9)
play-IsFair_example = play-IsFair 1 2 [] moves four_moves played

accepted : IsAccepted four_moves 1 (move 0 2)
unfolding plays
accepted = refl

row_won : (handle_message four_moves 1 (move 0 2)).0.winner ≡ some 1
unfolding plays
row_won = refl

handle_message-cell_example :
    (cell four_moves.board 0 2 ≡ empty)
    × (cell (handle_message four_moves 1 (move 0 2)).0.board 0 2 ≡ x)
unfolding mark_of
handle_message-cell_example =
    handle_message-cell four_moves 1 (move 0 2) 0 2 accepted (omega arith) (omega arith)

validate_message-can_play_example : (m : Move) × IsAccepted four_moves (on_turn four_moves) m
validate_message-can_play_example = validate_message-can_play 1 2 [] moves four_moves played refl

abbrev table : RoomActor tic_tac_toe
table = record (Actor.initial {g = tic_tac_toe} 3 tic_tac_toe.room_config tt) {
  game_state = some four_moves;
}

abbrev waiting : RoomActor tic_tac_toe
waiting =
    (Actor.handle_join {g = tic_tac_toe}
      (Actor.initial {g = tic_tac_toe} 3 tic_tac_toe.room_config tt) 2 102).0

waiting-IsValid : Invariant.IsValid {g = tic_tac_toe} waiting
waiting-IsValid =
    handle_join-IsValid {g = tic_tac_toe}
      (Actor.initial {g = tic_tac_toe} 3 tic_tac_toe.room_config tt) 2 102
      (initial-IsValid {g = tic_tac_toe} 3 tic_tac_toe.room_config tt)

authenticate-decimal_example : authenticate (decimal 42) ≡ ok 42
authenticate-decimal_example = authenticate-decimal 42 (omega arith)

-- A sign and leading zeros are read, and nothing else is.
other_tokens :
    (authenticate "+007" ≡ ok 7)
    × (authenticate "-7" ≡ err (auth_failed "token must be a number"))
    × (authenticate "18446744073709551616" ≡ err (auth_failed "token must be a number"))
unfolding authenticate parse_u64
other_tokens = (refl, refl, refl)
