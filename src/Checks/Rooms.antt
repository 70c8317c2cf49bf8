-- ===== src/Checks/Rooms.antt =====
-- One room, with the game of the tests.
use archforge.Prelude.{
  map, ℕ, nat_eq, none, ◌==◌, if◌then◌else◌, ◌≡◌, refl, ◌⊎◌, ok, inr, false, [], ◌∷◌, some, err,
  arith,
}
use archforge.Prelude.HashMap
use archforge.Prelude.HashSet
use archforge.Protocol.{PlayerId, player, all_except, all}
use archforge.Room.State.{
  is_joinable, is_active, waiting_for_players, in_progress, finished, destroying, default_config,
  invalid_state, cannot_join_in,
}
use archforge.Room.Actor.{
  RoomActor, RoomCommand, RoomOutbound, auto_start, handle, handle_join, handle_leave,
  handle_message, initial, dispatch, shutdown, leave,
}
use archforge.Room.Actor.Invariant.{IsValid, handle-IsValid, handle_join-IsValid, initial-IsValid}
use archforge.Room.Actor.Lifecycle.{
  handle-moves, handle_join_lem, handle_leave_lem, handle_message-plays, handle_message-drops,
}
use archforge.Room.Actor.Delivery.{Owns, received, addressed, received-dispatch}
use mathlib.Core.List.{List}
use mathlib.Core.List.Perm
use archforge.Room.Actor.Order.{Same}
use archforge.Room.Actor.Order.Runs.{AllApart, AllAgree, run-AllAgree}
use archforge.Room.Handle.{run}
use archforge.Room.Handle.Plays.{play, posted, run-play}
use archforge.Checks.Game.{adding}

abbrev pub empty_room : RoomActor adding
empty_room = initial 7 default_config 0

abbrev pub one_player : RoomActor adding
one_player = (handle_join empty_room 1 101).0

abbrev pub playing : RoomActor adding
playing = (handle_join one_player 2 102).0

one_player-IsValid : IsValid one_player
one_player-IsValid = handle_join-IsValid empty_room 1 101 (initial-IsValid 7 default_config 0)

playing-IsValid : IsValid playing
playing-IsValid = handle_join-IsValid one_player 2 102 one_player-IsValid

-- What a test has to open for the room to run.
unfoldable pub running : Unit {0}
unfolding handle_join handle_message initial auto_start is_joinable is_active HashSet.contains
    HashSet.new HashSet.len HashSet.insert HashMap.get HashMap.insert HashMap.new dispatch
running = tt

playing_state : (playing.state ≡ in_progress) × (playing.game_state ≡ some 0)
unfolding running
playing_state = (refl, refl)

handle-IsValid_example : IsValid (handle playing (RoomCommand.message 1 4)).0
handle-IsValid_example = handle-IsValid playing (RoomCommand.message 1 4) playing-IsValid

abbrev last_move : RoomCommand adding
last_move = RoomCommand.message 1 10

handle-moves_example :
    let after = (handle playing last_move).0.state in
    (after ≡ playing.state)
    ⊎ ((playing.state ≡ waiting_for_players) × (after ≡ in_progress))
    ⊎ ((playing.state ≡ in_progress) × (after ≡ finished))
    ⊎ ((last_move ≡ shutdown) × (after ≡ destroying))
handle-moves_example =
    handle-moves playing last_move playing-IsValid (λ e. unfold running in ground (arith, e))

pub second : Owns playing 2 102
unfolding running
second = record { channel = refl; only = λ q h. ground arith }

received-dispatch_example :
    received 102 (dispatch playing ((all, 4) ∷ (all_except 2, 5) ∷ (player 2, 6) ∷ []))
    ≡ RoomOutbound.message 4 ∷ RoomOutbound.message 6 ∷ []
unfolding addressed
received-dispatch_example =
    received-dispatch second ((all, 4) ∷ (all_except 2, 5) ∷ (player 2, 6) ∷ []) playing-IsValid

-- A third player does not come into a room that plays.
handle_join_lem_example :
    let (b, r, sends) = handle_join playing 3 103 in
    (r ≡ err (invalid_state (cannot_join_in in_progress)))
    × (HashSet.contains 3 b.players ≡ false)
    × ((b ≡ playing) × (sends ≡ []))
unfolding running
handle_join_lem_example = handle_join_lem playing 3 103 3

handle_leave_lem_example :
    let (b, r, sends) = handle_leave playing 1 in
    (r ≡ ok tt) × (HashSet.contains 1 b.players ≡ false) × (b.game_state ≡ some 0) × (Unit {0})
unfolding running
handle_leave_lem_example = handle_leave_lem playing 1 1

-- Player 1 moves, a stranger and player 2 are refused, and player 2 ends the game.
abbrev some_moves : List (PlayerId × ℕ)
some_moves = (1, 4) ∷ (9, 1) ∷ (2, 0) ∷ (2, 6) ∷ []

run-play_example :
    let (b, ended, sends) = run playing (posted {g = adding} some_moves) in
    let (last, over, answers) = play adding playing.players 0 some_moves in
    (b.game_state ≡ some last)
    × (b.state ≡ (if over then finished else in_progress))
    × (b.players ≡ playing.players)
    × (ended ≡ false)
    × (received 102 sends ≡ map RoomOutbound.message (addressed 2 answers))
unfolding running
run-play_example = run-play playing 0 some_moves 2 102 playing-IsValid refl second

they_play : (play adding playing.players 0 some_moves).0 ≡ 10
unfolding play running
they_play = refl

-- A room whose game is over still plays.
over : RoomActor adding
over = (handle_message playing 1 10).0

plays_after_the_end : (over.state ≡ finished) × ((handle_message over 2 5).0.game_state ≡ some 15)
unfolding running over
plays_after_the_end = (refl, (handle_message-plays over 2 5 10 refl refl refl).0)

handle_message-drops_example : handle_message playing 1 0 ≡ (playing, [])
unfolding running
handle_message-drops_example =
    handle_message-drops playing 1 0 (inr (inr (0, "nothing to add", refl, refl)))

abbrev one_way : RoomActor adding
one_way = record playing { players = record { members = 5 ∷ 3 ∷ [] } }

abbrev other_way : RoomActor adding
other_way = record playing { players = record { members = 3 ∷ 5 ∷ [] } }

-- The same two players, who came in the other order.
abbrev playing' : RoomActor adding
playing' = (handle_join (handle_join empty_room 2 102).0 1 101).0

playing'-IsValid : IsValid playing'
playing'-IsValid =
    handle_join-IsValid (handle_join empty_room 2 102).0 1 101
      (handle_join-IsValid empty_room 2 102 (initial-IsValid 7 default_config 0))

playing-Same : Same playing playing'
unfolding running
playing-Same = record {
  room_id = refl;
  state = refl;
  config = refl;
  players = Perm.swap 1 2 [];
  senders = λ p. ground arith;
  game_state = refl;
  game_config = refl;
}

abbrev moves : List (RoomCommand adding)
moves = RoomCommand.message 1 4 ∷ leave 2 ∷ []

abbrev after_move : RoomActor adding
after_move = (handle playing (RoomCommand.message 1 4)).0

abbrev after_leave : RoomActor adding
after_leave = (handle after_move (leave 2)).0

after_move_senders :
    (p : PlayerId)
    → HashMap.get p after_move.senders
      ≡ (if p == 2 then some 102 else if p == 1 then some 101 else none)
unfolding running handle
after_move_senders p = ground arith

after_leave_senders :
    (p : PlayerId) → HashMap.get p after_leave.senders ≡ (if p == 1 then some 101 else none)
unfolding running handle handle_leave HashMap.remove HashMap.drop_key
after_leave_senders p = ground arith

moves-AllApart : AllApart playing moves
unfolding AllApart
moves-AllApart = (
  record { apart = λ p q c h k. ground (arith, after_move_senders p, after_move_senders q) },
  (
    record { apart = λ p q c h k. ground (arith, after_leave_senders p, after_leave_senders q) },
    tt,
  ),
)

run-AllAgree_example : AllAgree playing playing' moves
run-AllAgree_example =
    run-AllAgree playing playing' moves playing-Same playing-IsValid playing'-IsValid moves-AllApart
