-- ===== src/Room/Handle.antt =====
-- room.rs, `RoomHandle` and the mailbox. A room's task takes the commands of its channel in order;
-- a caller that waits for a reply waits until the task has come to its command. The bound of the
-- channel only makes a sender wait, and is left out.
pub mod Mailbox
pub mod Plays
use archforge.Prelude.{
  ℕ, Bool, true, false, List, [], ◌∷◌, ◌++◌, Option, none, some, Result, ok, err, if◌then◌else◌,
}
use archforge.Protocol.{PlayerId, RoomId}
use archforge.Room.State.{RoomConfig, RoomError, unavailable}
use archforge.Room.Logic.{GameLogic}
use archforge.Room.Actor.{
  RoomActor, RoomCommand, RoomInfo, PlayerSender, Sends, Reply, result, snapshot, handle, initial,
  leave, get_state,
}
use archforge.Room.Actor.{shutdown as shutdown_command, join as join_command}

-- A running room: its task's state, the commands that wait in its channel, and whether the task has
-- left its loop.
pub record Room (g : GameLogic) : Type 0 where
  pub room_id : RoomId
  pub actor : RoomActor g
  pub mailbox : List (RoomCommand g)
  pub stopped : Bool

abbrev pub as_result : RoomId → Option Reply → Result RoomError (Unit {0})
as_result rid (some (result r)) = r
as_result rid _ = err (unavailable rid)

abbrev pub as_info : RoomId → Option Reply → Result RoomError RoomInfo
as_info rid (some (snapshot i)) = ok i
as_info rid _ = err (unavailable rid)

module _ {g : GameLogic} where
  unfoldable pub is_shutdown : RoomCommand g → Bool
  is_shutdown shutdown_command = true
  is_shutdown _ = false

  -- The loop of `run` over the commands of the channel: the state at the end, whether the loop was
  -- left by `Shutdown`, and what was sent. Nobody waits for these replies.
  unfoldable pub run : RoomActor g → List (RoomCommand g) → RoomActor g × Bool × Sends g
  unfolding is_shutdown
  run a [] = (a, false, [])
  run a (c ∷ cs) =
      let (a', _, sends) = handle a c in
      let rest = run a' cs in
      if is_shutdown c then (a', true, sends) else (rest.0, rest.1, sends ++ rest.2)

  -- One command served, if the task is there and one waits. What is left in the channel of a task
  -- that ends is lost.
  unfoldable pub serve : Room g → Room g × Sends g
  unfolding is_shutdown
  serve r = elim r.mailbox [
    | [] ↦ (r, [])
    | c ∷ cs ↦
        let (a', _, sends) = handle r.actor c in
        if is_shutdown c
        then (record r { actor = a'; mailbox = []; stopped = true }, sends)
        else (record r { actor = a'; mailbox = cs }, sends)
  ]

  -- Send a command and wait for its reply: `none` if the channel is closed, or closes before.
  unfoldable pub request : Room g → RoomCommand g → Room g × Option Reply × Sends g
  unfolding run is_shutdown
  request r c =
      if r.stopped
      then (r, none, [])
      else let (a, ended, sends) = run r.actor r.mailbox in
        let (a', reply, more) = handle a c in
        if ended
        then (record r { actor = a; mailbox = []; stopped = true }, none, sends)
        else (record r { actor = a'; mailbox = []; stopped = is_shutdown c }, reply, sends ++ more)

  -- Send a command and go on.
  unfoldable pub post : Room g → RoomCommand g → Room g × Result RoomError (Unit {0})
  post r c =
      if r.stopped
      then (r, err (unavailable r.room_id))
      else (record r { mailbox = r.mailbox ++ c ∷ [] }, ok tt)

  unfoldable pub join :
      Room g → PlayerId → PlayerSender → Room g × Result RoomError (Unit {0}) × Sends g
  unfolding request
  join r pid sender =
      let (r', reply, sends) = request r (join_command pid sender) in
      (r', as_result r.room_id reply, sends)

  unfoldable pub leave_room : Room g → PlayerId → Room g × Result RoomError (Unit {0}) × Sends g
  unfolding request
  leave_room r pid =
      let (r', reply, sends) = request r (leave pid) in (r', as_result r.room_id reply, sends)

  unfoldable pub send_message :
      Room g → PlayerId → g.ClientMessage → Room g × Result RoomError (Unit {0})
  unfolding post
  send_message r sender msg = post r (RoomCommand.message sender msg)

  unfoldable pub get_info : Room g → Room g × Result RoomError RoomInfo × Sends g
  unfolding request
  get_info r = let (r', reply, sends) = request r get_state in (r', as_info r.room_id reply, sends)

  unfoldable pub shutdown : Room g → Room g × Result RoomError (Unit {0})
  unfolding post
  shutdown r = post r shutdown_command

  unfoldable pub spawn_room : RoomId → RoomConfig → g.Config → Room g
  unfolding initial
  spawn_room room_id config game_config = record {
    room_id = room_id;
    actor = initial room_id config game_config;
    mailbox = [];
    stopped = false;
  }
