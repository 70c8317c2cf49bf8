-- ===== src/TicTacToe/Play.antt =====
-- Plays of the game: `validate_message` and `handle_message` in turn, also in a room.
use archforge.Prelude.{
  ℕ, suc, ◌+◌, ◌-◌, ◌<◌, ◌≡◌, refl, true, false, ◌&&◌, ◌==◌, List, [], ◌∷◌, Option, none, some,
  is_some, Result, ok, err, is_ok, Bool-cases, if◌then◌else◌, arith, length, inl, inr,
}
use archforge.Protocol.{PlayerId}
use archforge.Room.Actor
use archforge.Room.Actor.{RoomActor}
use archforge.Room.Actor.Lifecycle.{handle_message-drops}
use archforge.TicTacToe.{
  empty, x, o, cell_eq, at, cell, mark_cell, board_full, mark_of, State, Move, init, on_turn,
  validate_message, handle_message, tic_tac_toe,
}
use archforge.TicTacToe.Board.{cell-mark_cell, count, in_row, count-mark_cell, free_cell, empty_inv}

abbrev pub IsAccepted : State → PlayerId → Move → Type 0
IsAccepted s p m = validate_message s p m ≡ ok tt

accepted_inv :
    (s : State) (p : PlayerId) (m : Move)
    → IsAccepted s p m
    → (s.winner ≡ none)
      × (on_turn s ≡ p)
      × (m.row < 3)
      × (m.col < 3)
      × (cell s.board m.row m.col ≡ empty)
unfolding validate_message
accepted_inv s p m h = ground (arith, empty_inv (cell s.board m.row m.col))

handle_message-board :
    (s : State) (p : PlayerId) (m : Move)
    → (handle_message s p m).0.board ≡ mark_cell s.board m.row m.col (mark_of s.turn)
unfolding handle_message
handle_message-board s p m = ground arith

-- An accepted move puts the mark of the turn into its cell, which was empty, and changes no other.
pub handle_message-cell :
    (s : State) (p : PlayerId) (m : Move) (i j : ℕ)
    → IsAccepted s p m
    → i < 3
    → j < 3
    → let s' = (handle_message s p m).0 in
      (cell s.board m.row m.col ≡ empty)
      × (cell s'.board i j
          ≡ (if (m.row == i) && (m.col == j) then mark_of s.turn else cell s.board i j))
handle_message-cell s p m i j h hi hj =
    let (_, _, hr, hc, free) = accepted_inv s p m h in
    (
      free,
      rw (handle_message-board s p m)
          (cell-mark_cell s.board m.row m.col (mark_of s.turn) i j hr hc hi hj),
    )

-- While the game is on, X has as many marks as O, or one more if it is O's turn, and a cell is free.
pub record IsFair (s : State) : Type 0 where
  pub turns : s.turn < 2
  pub counted : s.winner ≡ none → count x s.board ≡ count o s.board + s.turn
  pub room_left : s.winner ≡ none → board_full s.board ≡ false

handle_message-counts :
    (s : State) (p : PlayerId) (m : Move)
    → IsAccepted s p m
    → s.turn < 2
    → let s' = (handle_message s p m).0 in
      (count x s'.board ≡ count x s.board + (1 - s.turn))
      × (count o s'.board ≡ count o s.board + s.turn)
      × (suc (count empty s'.board) ≡ count empty s.board)
unfolding mark_of cell_eq
handle_message-counts s p m h t =
    let (_, _, hr, hc, free) = accepted_inv s p m h in
    let k = mark_of s.turn in
    let was = free in
    ground (
      arith,
      was,
      handle_message-board s p m,
      count-mark_cell x s.board m.row m.col k hr hc,
      count-mark_cell o s.board m.row m.col k hr hc,
      count-mark_cell empty s.board m.row m.col k hr hc,
    )

-- An accepted move keeps the count of the marks fair, and takes one free cell.
handle_message-IsFair :
    (s : State) (p : PlayerId) (m : Move)
    → IsFair s
    → IsAccepted s p m
    → let s' = (handle_message s p m).0 in
      IsFair s' × (suc (count empty s'.board) ≡ count empty s.board)
unfolding handle_message
handle_message-IsFair s p m f h =
    let (nx, n_o, ne) = handle_message-counts s p m h f.turns in
    let still = (accepted_inv s p m h).0 in
    let c = f.counted still in
    (
      record {
        turns = ground (arith, f.turns);
        counted = λ e. ground (arith, nx, n_o, c, f.turns);
        room_left = λ e. ground arith;
      },
      ne,
    )

-- A sequence of moves, each by the player who is named: `none` if one of them is refused.
unfoldable pub play : State → List (PlayerId × Move) → Option State
play s [] = some s
play s ((p, m) ∷ ms) =
    let rest = play (handle_message s p m).0 ms in
    if is_ok (validate_message s p m) then rest else none

is_ok_inv : {E : Type 0} (r : Result E (Unit {0})) → is_ok r ≡ true → r ≡ ok tt
is_ok_inv (ok _) h = refl
is_ok_inv (err e) h = ground arith

play_from :
    (s : State) (ms : List (PlayerId × Move)) (s' : State)
    → IsFair s
    → play s ms ≡ some s'
    → IsFair s' × (count empty s'.board + length ms ≡ count empty s.board)
unfolding play
play_from s [] s' f h = ground (arith, f)
play_from s ((p, m) ∷ ms) s' f h = elim (Bool-cases (is_ok (validate_message s p m))) [
  | inr refused ↦ ground (arith, refused)
  | inl accepted ↦
      let (f', free) =
        handle_message-IsFair s p m f (is_ok_inv (validate_message s p m) accepted) in
      let rest = play_from (handle_message s p m).0 ms s' f' (ground (arith, accepted)) in
      (rest.0, omega (arith, free, rest.1))
]

init-IsFair : (p q : PlayerId) (others : List PlayerId) → IsFair (init tt (p ∷ q ∷ others))
unfolding init count in_row cell_eq board_full cell at
init-IsFair p q others = record { turns = omega arith; counted = λ e. refl; room_left = λ e. refl }

-- A game of two players has at most nine accepted moves: each takes one of the nine cells. While it
-- is on, X has as many marks as O, or one more if it is O's turn, and a cell is free.
pub play-IsFair :
    (p q : PlayerId) (others : List PlayerId) (ms : List (PlayerId × Move)) (s : State)
    → play (init tt (p ∷ q ∷ others)) ms ≡ some s
    → IsFair s × (count empty s.board + length ms ≡ 9)
unfolding init count in_row cell_eq
play-IsFair p q others ms s h =
    let (f, n) = play_from (init tt (p ∷ q ∷ others)) ms s (init-IsFair p q others) h in (f, n)

-- The player whose turn it is has a move that is accepted, while the game is on.
fair_move : (s : State) → IsFair s → s.winner ≡ none → (m : Move) × IsAccepted s (on_turn s) m
unfolding validate_message
fair_move s f e =
    let (i, j, hi, hj, free) = free_cell s.board (f.room_left e) in
    (record { row = i; col = j }, unfold cell_eq in ground arith)

-- A game of two players never gets stuck: whatever moves were accepted from its start on, while the
-- game is on, the player whose turn it is has a move that is accepted.
pub validate_message-can_play :
    (p q : PlayerId) (others : List PlayerId) (ms : List (PlayerId × Move)) (s : State)
    → play (init tt (p ∷ q ∷ others)) ms ≡ some s
    → s.winner ≡ none
    → (m : Move) × IsAccepted s (on_turn s) m
validate_message-can_play p q others ms s h e = fair_move s (play-IsFair p q others ms s h).0 e

-- In a room of this game, a message of anybody but the player whose turn it is is dropped.
pub handle_message-out_of_turn :
    (a : RoomActor tic_tac_toe) (s : State) (p : PlayerId) (m : Move)
    → a.game_state ≡ some s
    → (on_turn s == p) ≡ false
    → Actor.handle_message {g = tic_tac_toe} a p m ≡ (a, [])
handle_message-out_of_turn a s p m e other = handle_message-drops {g = tic_tac_toe} a p m (
    inr (
      inr (
        s,
        if is_some s.winner then "game is over" else "not your turn",
        e,
        unfold validate_message in ground arith,
      )))
