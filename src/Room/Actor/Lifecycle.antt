-- ===== src/Room/Actor/Lifecycle.antt =====
-- How the commands move a room through its life cycle, and what each of them answers.
use archforge.Prelude.{
  suc, ◌≡◌, ◌≢◌, ◌⊎◌, true, false, [], none, some, ok, err, arith, leb, ltb, not, ◌&&◌, ◌==◌,
  if◌then◌else◌, nat_eq, String,
}
use archforge.Prelude.Sort.{sort}
use archforge.Prelude.HashSet
use mathlib.Core.Option
use archforge.Protocol.{PlayerId}
use archforge.Room.State.{
  waiting_for_players, in_progress, finished, destroying, is_joinable, is_active, room_full,
  already_in_room, not_in_room, invalid_state, cannot_join_in,
}
use archforge.Room.Logic.{GameLogic}
use archforge.Room.Actor.{
  RoomActor, RoomCommand, PlayerSender, auto_start, handle_join, handle_leave, handle_message,
  handle, join, leave, get_state, shutdown,
}
use archforge.Room.Actor.Invariant.{IsValid}

module _ {g : GameLogic} where
  -- A room that is not shut down stays in its state, or goes from `WaitingForPlayers` to
  -- `InProgress`, from `InProgress` to `Finished`, or, by `Shutdown` alone, to `Destroying`.
  pub handle-moves :
      (a : RoomActor g) (c : RoomCommand g)
      → IsValid a
      → a.state ≢ destroying
      → let after = (handle a c).0.state in
        (after ≡ a.state)
        ⊎ ((a.state ≡ waiting_for_players) × (after ≡ in_progress))
        ⊎ ((a.state ≡ in_progress) × (after ≡ finished))
        ⊎ ((c ≡ shutdown) × (after ≡ destroying))
  unfolding handle is_joinable is_active auto_start
  handle-moves a (join pid s) v h = ground arith
  handle-moves a (leave pid) v h = ground arith
  handle-moves a (RoomCommand.message pid msg) v h = ground arith
  handle-moves a get_state v h = ground arith
  handle-moves a shutdown v h = ground arith

  -- A player is admitted if and only if the room waits, the player is not in it, and it is not full,
  -- and is then in the room; the membership of everybody else stays. A player who is refused leaves
  -- the room as it is, nothing is sent, and the first check that fails gives the error.
  pub handle_join_lem :
      (a : RoomActor g) (pid : PlayerId) (s : PlayerSender) (q : PlayerId)
      → let (b, r, sends) = handle_join a pid s in
        let admitted =
          is_joinable a.state
          && not (HashSet.contains pid a.players)
          && ltb (HashSet.len a.players) a.config.max_players in
        let reason =
          if not (is_joinable a.state)
          then invalid_state (cannot_join_in a.state)
          else if HashSet.contains pid a.players
          then already_in_room pid a.room_id
          else room_full a.room_id in
        (r ≡ (if admitted then ok tt else err reason))
        × (HashSet.contains q b.players
            ≡ (if admitted && (pid == q) then true else HashSet.contains q a.players))
        × (if admitted then (Unit {0}) else ((b ≡ a) × (sends ≡ [])))
  unfolding handle_join auto_start
  handle_join_lem a pid s q = ground (arith, HashSet.contains-insert pid q a.players)

  -- Only a player of the room can leave it. Afterwards the player is out and everybody else is as
  -- before; the game goes on with the state that the game's hook makes of the old one if the game is
  -- on, and is kept as it is otherwise. A stranger's request changes and sends nothing.
  pub handle_leave_lem :
      (a : RoomActor g) (pid q : PlayerId)
      → let (b, r, sends) = handle_leave a pid in
        let member = HashSet.contains pid a.players in
        (r ≡ (if member then ok tt else err (not_in_room pid a.room_id)))
        × (HashSet.contains q b.players
            ≡ (if pid == q then false else HashSet.contains q a.players))
        × (b.game_state ≡ (
            if member && is_active a.state
            then Option.map (λ game. (g.on_player_disconnect game pid).0) a.game_state
            else a.game_state))
        × (if member then (Unit {0}) else ((b ≡ a) × (sends ≡ [])))
  unfolding handle_leave
  handle_leave_lem a pid q =
      ground (arith, HashSet.contains-remove pid q a.players, nat_eq.beq_iff pid q)

  -- A joining player who makes up `min_players` starts the game, on the players in ascending order;
  -- before that the room goes on waiting.
  pub handle_join-start :
      (a : RoomActor g) (pid : PlayerId) (s : PlayerSender)
      → IsValid a
      → (handle_join a pid s).1 ≡ ok tt
      → let b = (handle_join a pid s).0 in
        (HashSet.len b.players ≡ suc (HashSet.len a.players))
        × (if leb a.config.min_players (suc (HashSet.len a.players))
            then ((b.state ≡ in_progress)
                × (b.game_state ≡ some (g.init a.game_config (sort b.players.members))))
            else ((b.state ≡ waiting_for_players) × (b.game_state ≡ none)))
  unfolding handle_join auto_start is_joinable
  handle_join-start a pid s v h = ground (arith, HashSet.len-insert pid a.players)

  -- A message of a player in the room that the game accepts is played, and moves the room to
  -- `Finished` exactly if the game is then over, in whatever state the room is.
  pub handle_message-plays :
      (a : RoomActor g) (pid : PlayerId) (msg : g.ClientMessage) (game : g.State)
      → HashSet.contains pid a.players ≡ true
      → a.game_state ≡ some game
      → g.validate_message game pid msg ≡ ok tt
      → let b = (handle_message a pid msg).0 in
        let game' = (g.handle_message game pid msg).0 in
        (b.game_state ≡ some game')
        × (b.state ≡ (if g.is_finished game' then finished else a.state))
        × (b.players ≡ a.players)
  unfolding handle_message
  handle_message-plays a pid msg game m e accepted = ground arith

  -- A message of a stranger, a message before the start, and a message that the game refuses are
  -- dropped: nothing changes, and nobody is told, the sender neither.
  pub handle_message-drops :
      (a : RoomActor g) (pid : PlayerId) (msg : g.ClientMessage)
      → (HashSet.contains pid a.players ≡ false)
        ⊎ (a.game_state ≡ none)
        ⊎ ((game : g.State) × (reason : String) × (a.game_state ≡ some game)
            × (g.validate_message game pid msg ≡ err reason))
      → handle_message a pid msg ≡ (a, [])
  unfolding handle_message
  handle_message-drops a pid msg h = ground arith
