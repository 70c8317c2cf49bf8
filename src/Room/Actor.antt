-- ===== src/Room/Actor.antt =====
-- room.rs, the actor: its state, its messages and its command handlers. A player's outbound channel
-- is the number of the channel; a handler returns what it sends, in order, as pairs of a channel
-- and a message. Logging is left out.
pub mod Invariant
pub mod Start
pub mod Lifecycle
pub mod Delivery
pub mod Order
use archforge.Prelude.{
  ℕ, Bool, true, false, not, List, [], ◌∷◌, ◌++◌, Option, none, some, Result, ok, err, leb, ◌==◌,
  if◌then◌else◌, nat_eq, String,
}
use archforge.Prelude.HashMap
use archforge.Prelude.HashMap.{HashMap}
use archforge.Prelude.HashSet
use archforge.Prelude.HashSet.{HashSet}
use archforge.Prelude.Sort.{sort}
use archforge.Protocol.{PlayerId, RoomId, Recipient, all, player, all_except}
use archforge.Room.State.{
  RoomConfig, RoomState, waiting_for_players, starting, in_progress, finished, destroying,
  is_joinable, is_active, RoomError, room_full, already_in_room, not_in_room, invalid_state,
  cannot_join_in,
}
use archforge.Room.Logic.{GameLogic}

-- An outbound message to a player: a snapshot of the game, or a message of the game.
pub data RoomOutbound (g : GameLogic) : Type 0 where
  state : g.State → RoomOutbound g
  message : g.ServerMessage → RoomOutbound g

-- `mpsc::UnboundedSender`, by the number of its channel.
abbrev pub PlayerSender : Type 0
PlayerSender = ℕ

abbrev pub Sends : GameLogic → Type 0
Sends g = List (PlayerSender × RoomOutbound g)

-- The reply channels are left out: the reply is what the handler returns.
pub data RoomCommand (g : GameLogic) : Type 0 where
  join : PlayerId → PlayerSender → RoomCommand g
  leave : PlayerId → RoomCommand g
  message : PlayerId → g.ClientMessage → RoomCommand g
  get_state : RoomCommand g
  shutdown : RoomCommand g

pub record RoomInfo : Type 0 where
  pub room_id : RoomId
  pub state : RoomState
  pub player_count : ℕ
  pub max_players : ℕ

pub record RoomActor (g : GameLogic) : Type 0 where
  pub room_id : RoomId
  pub state : RoomState
  pub config : RoomConfig
  pub players : HashSet PlayerId
  pub senders : HashMap PlayerId PlayerSender
  pub game_state : Option g.State
  pub game_config : g.Config

module _ {g : GameLogic} where
  -- Nothing is sent to a player with no channel.
  unfoldable pub send_to : RoomActor g → PlayerId → RoomOutbound g → Sends g
  send_to a pid msg = elim (HashMap.get pid a.senders) [ none ↦ [] | some s ↦ (s, msg) ∷ [] ]

  -- The loops `for pid in &self.players`.
  unfoldable pub send_each : RoomActor g → List PlayerId → RoomOutbound g → Sends g
  send_each a [] msg = []
  send_each a (p ∷ ps) msg = send_to a p msg ++ send_each a ps msg

  unfoldable pub send_each_except :
      RoomActor g → PlayerId → List PlayerId → RoomOutbound g → Sends g
  send_each_except a excluded [] msg = []
  send_each_except a excluded (p ∷ ps) msg =
      (if p == excluded then [] else send_to a p msg) ++ send_each_except a excluded ps msg

  -- One round of the loop of `dispatch`.
  unfoldable pub dispatch_to : RoomActor g → Recipient → RoomOutbound g → Sends g
  dispatch_to a all out = send_each a a.players.members out
  dispatch_to a (player pid) out = send_to a pid out
  dispatch_to a (all_except excluded) out = send_each_except a excluded a.players.members out

  unfoldable pub dispatch : RoomActor g → List (Recipient × g.ServerMessage) → Sends g
  dispatch a [] = []
  dispatch a ((r, msg) ∷ msgs) = dispatch_to a r (RoomOutbound.message msg) ++ dispatch a msgs

  unfoldable pub transition_to_starting : RoomActor g → RoomActor g × Sends g
  transition_to_starting a =
      let preparing = record a { state = starting } in
      let game = g.init a.game_config (sort a.players.members) in
      let running = record preparing { game_state = some game; state = in_progress } in
      (running, send_each running running.players.members (RoomOutbound.state game))

  -- The end of `handle_join`, with the player admitted.
  unfoldable pub auto_start : RoomActor g → RoomActor g × Result RoomError (Unit {0}) × Sends g
  unfolding transition_to_starting
  auto_start a =
      if leb a.config.min_players (HashSet.len a.players)
      then (let (running, sends) = transition_to_starting a in (running, ok tt, sends))
      else (a, ok tt, [])

  unfoldable pub handle_join :
      RoomActor g → PlayerId → PlayerSender → RoomActor g × Result RoomError (Unit {0}) × Sends g
  handle_join a pid sender =
      if not (is_joinable a.state)
      then (a, err (invalid_state (cannot_join_in a.state)), [])
      else if HashSet.contains pid a.players
      then (a, err (already_in_room pid a.room_id), [])
      else if leb a.config.max_players (HashSet.len a.players)
      then (a, err (room_full a.room_id), [])
      else auto_start (record a {
        players = HashSet.insert pid a.players;
        senders = HashMap.insert pid sender a.senders;
      })

  -- `if finished { self.state = RoomState::Finished }`.
  unfoldable pub finish_if : Bool → RoomActor g → RoomActor g
  finish_if over a = if over then record a { state = finished } else a

  -- The game is told of a player who left an active room.
  unfoldable pub notify_disconnect : RoomActor g → PlayerId → Option g.State → RoomActor g × Sends g
  unfolding finish_if dispatch
  notify_disconnect a pid none = (a, [])
  notify_disconnect a pid (some game) =
      let (game', msgs) = g.on_player_disconnect game pid in
      let told = record a { game_state = some game' } in
      (finish_if (g.is_finished game') told, dispatch told msgs)

  unfoldable pub handle_leave :
      RoomActor g → PlayerId → RoomActor g × Result RoomError (Unit {0}) × Sends g
  unfolding notify_disconnect
  handle_leave a pid =
      if not (HashSet.contains pid a.players)
      then (a, err (not_in_room pid a.room_id), [])
      else let left = record a {
        players = HashSet.remove pid a.players;
        senders = HashMap.remove pid a.senders;
      } in
        if is_active left.state
        then (let (told, sends) = notify_disconnect left pid left.game_state in
            (told, ok tt, sends))
        else (left, ok tt, [])

  -- A message that the game accepts.
  unfoldable pub apply_message :
      RoomActor g → g.State → PlayerId → g.ClientMessage → RoomActor g × Sends g
  unfolding finish_if dispatch
  apply_message a game sender msg =
      let (game', msgs) = g.handle_message game sender msg in
      let played = record a { game_state = some game' } in
      (finish_if (g.is_finished game') played, dispatch played msgs)

  unfoldable pub validated :
      RoomActor g
      → g.State
      → PlayerId
      → g.ClientMessage
      → Result String (Unit {0})
      → RoomActor g × Sends g
  unfolding apply_message
  validated a game sender msg (err reason) = (a, [])
  validated a game sender msg (ok _) = apply_message a game sender msg

  unfoldable pub handle_message : RoomActor g → PlayerId → g.ClientMessage → RoomActor g × Sends g
  unfolding validated
  handle_message a sender msg =
      if not (HashSet.contains sender a.players) then (a, []) else elim a.game_state [
        | none ↦ (a, [])
        | some game ↦ validated a game sender msg (g.validate_message game sender msg)
      ]

  unfoldable pub info : RoomActor g → RoomInfo
  info a = record {
    room_id = a.room_id;
    state = a.state;
    player_count = HashSet.len a.players;
    max_players = a.config.max_players;
  }

-- What a caller waits for on its reply channel.
pub data Reply : Type 0 where
  result : Result RoomError (Unit {0}) → Reply
  snapshot : RoomInfo → Reply

module _ {g : GameLogic} where
  -- One round of the loop of `run`.
  unfoldable pub handle : RoomActor g → RoomCommand g → RoomActor g × Option Reply × Sends g
  unfolding handle_join handle_leave handle_message info
  handle a (join pid sender) =
      let (a', r, sends) = handle_join a pid sender in (a', some (result r), sends)
  handle a (leave pid) = let (a', r, sends) = handle_leave a pid in (a', some (result r), sends)
  handle a (RoomCommand.message sender msg) =
      let (a', sends) = handle_message a sender msg in (a', none, sends)
  handle a get_state = (a, some (snapshot (info a)), [])
  handle a shutdown = (record a { state = destroying }, none, [])

  -- The actor as `spawn_room` starts it.
  unfoldable pub initial : RoomId → RoomConfig → g.Config → RoomActor g
  initial room_id config game_config = record {
    room_id = room_id;
    state = waiting_for_players;
    config = config;
    players = HashSet.new;
    senders = HashMap.new;
    game_state = none;
    game_config = game_config;
  }
