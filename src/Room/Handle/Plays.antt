-- ===== src/Room/Handle/Plays.antt =====
-- The game of a room whose task serves messages of the players, against plays of the game alone.
use archforge.Prelude.{
  ◌≡◌, refl, ◌∙◌, sym, subst, ap, Bool, true, false, ◌&&◌, ◌||◌, List, [], ◌∷◌, ◌++◌, some, is_ok,
  if◌then◌else◌, nat_eq, arith, map,
}
use archforge.Prelude.HashMap
use archforge.Prelude.HashSet
use archforge.Protocol.{PlayerId, Recipient}
use archforge.Room.State.{RoomState, finished}
use archforge.Room.Logic.{GameLogic}
use archforge.Room.Actor.{
  RoomActor, RoomCommand, RoomOutbound, PlayerSender, Sends, handle, handle_message,
}
use archforge.Room.Actor.Invariant.{IsValid, handle_message-IsValid}
use archforge.Room.Actor.Delivery.{Owns, received, addressed, received-dispatch, received-append}
use archforge.Room.Actor.Order.Commands.{
  handle_message_sends, message_messages, message_messages_lem,
}
use archforge.Room.Handle.{run, is_shutdown}

-- What a player is told, one list of the game's answers after the other.
told-append :
    {g : GameLogic} (p : PlayerId) (xs ys : List (Recipient × g.ServerMessage))
    → ◌≡◌ {A = List (RoomOutbound g)}
        (map RoomOutbound.message (addressed p (xs ++ ys)))
        (map RoomOutbound.message (addressed p xs) ++ map RoomOutbound.message (addressed p ys))
unfolding addressed
told-append p [] ys = refl
told-append {g = g} p ((r, m) ∷ xs) ys = ground (arith, told-append {g = g} p xs ys)

-- A play of the game alone: each message of a player that the game accepts is handled, and the others
-- are passed over. The state at the end, whether the game was over after one of them, and the
-- game's answers, in order.
unfoldable pub play :
    (g : GameLogic)
    → HashSet.HashSet PlayerId
    → g.State
    → List (PlayerId × g.ClientMessage)
    → g.State × Bool × List (Recipient × g.ServerMessage)
play g players game [] = (game, false, [])
play g players game ((p, m) ∷ ms) =
    let (game', answers) = g.handle_message game p m in
    let taken = HashSet.contains p players && is_ok (g.validate_message game p m) in
    let rest = play g players (if taken then game' else game) ms in
    if taken then (rest.0, g.is_finished game' || rest.1, answers ++ rest.2) else rest

module _ {g : GameLogic} where
  -- The messages in the room's channel.
  abbrev pub posted : List (PlayerId × g.ClientMessage) → List (RoomCommand g)
  posted ms = map (λ x. RoomCommand.message x.0 x.1) ms

  -- One message, as the game takes it.
  handle_message-play :
      (a : RoomActor g) (game : g.State) (p : PlayerId) (m : g.ClientMessage) (q : PlayerId)
      (c : PlayerSender)
      → IsValid a
      → a.game_state ≡ some game
      → Owns a q c
      → let (b, sends) = handle_message a p m in
        let (game', answers) = g.handle_message game p m in
        let taken = HashSet.contains p a.players && is_ok (g.validate_message game p m) in
        (b.game_state ≡ some (if taken then game' else game))
        × (b.state ≡ (if taken && g.is_finished game' then finished else a.state))
        × (b.players ≡ a.players)
        × (b.senders ≡ a.senders)
        × (received c sends
            ≡ (if taken then map RoomOutbound.message (addressed q answers) else []))
  unfolding addressed
  handle_message-play a game p m q c v there o =
      let b = (handle_message a p m).0 in
      let kept : (b.players ≡ a.players) × (b.senders ≡ a.senders) =
        unfold handle_message in ground arith in
      let owns : Owns b q c = record {
        channel = ap (HashMap.get q) kept.1 ∙ o.channel;
        only = λ r h. o.only r (sym (ap (HashMap.get r) kept.1) ∙ h);
      } in
      let heard =
        received-dispatch owns (message_messages a p m) (handle_message-IsValid a p m v) in
      (
        unfold handle_message in ground (arith, there),
        unfold handle_message in ground (arith, there),
        kept.0,
        kept.1,
        ap (received c) (handle_message_sends a p m)
            ∙ heard
            ∙ ground (arith, message_messages_lem a game p m there),
      )

  -- What a play comes to in the room.
  abbrev Played :
      RoomState
      → HashSet.HashSet PlayerId
      → PlayerId
      → PlayerSender
      → RoomActor g × Bool × Sends g
      → g.State × Bool × List (Recipient × g.ServerMessage)
      → Type 0
  Played state players q c (b, ended, sends) (last, over, answers) =
      (b.game_state ≡ some last)
      × (b.state ≡ (if over then finished else state))
      × (b.players ≡ players)
      × (ended ≡ false)
      × (received c sends ≡ map RoomOutbound.message (addressed q answers))

  -- A message, taken or not, and then the others.
  Played-cons :
      (taken over : Bool) (state state' : RoomState) (players : HashSet.HashSet PlayerId)
      (q : PlayerId) (c : PlayerSender) (ran : RoomActor g × Bool × Sends g) (sends : Sends g)
      (answers : List (Recipient × g.ServerMessage))
      (rest : g.State × Bool × List (Recipient × g.ServerMessage))
      → state' ≡ (if taken && over then finished else state)
      → received c sends ≡ (if taken then map RoomOutbound.message (addressed q answers) else [])
      → Played state' players q c ran rest
      → Played state players q c
          (ran.0, ran.1, sends ++ ran.2)
          (if taken then (rest.0, over || rest.1, answers ++ rest.2) else rest)
  Played-cons true over state state' players q c ran sends answers rest e heard later = (
    later.0,
    later.1 ∙ ground (arith, e),
    later.2,
    later.3,
    received-append c sends ran.2
        ∙ (λ i. heard i ++ later.4 i)
        ∙ sym (told-append {g = g} q answers rest.2),
  )
  Played-cons false over state state' players q c ran sends answers rest e heard later = (
    later.0,
    later.1 ∙ ground (arith, e),
    later.2,
    later.3,
    received-append c sends ran.2 ∙ (λ i. heard i ++ later.4 i),
  )

  -- A well-formed room that has a game plays as the game alone: after any messages of anyone in its
  -- channel, the state of its game is that of the play of the game alone, and the room is finished
  -- if the game was over after one of the messages that were played, and otherwise in the state it
  -- was in; its players are the same, and its task goes on. A player who listens on a channel of
  -- their own finds in it just the game's answers that are for the player, in order. So a message of
  -- a stranger, or one that the game refuses, changes nothing, and one that comes after the end of
  -- the game is played like the others.
  pub run-play :
      (a : RoomActor g) (game : g.State) (ms : List (PlayerId × g.ClientMessage)) (q : PlayerId)
      (c : PlayerSender)
      → IsValid a
      → a.game_state ≡ some game
      → Owns a q c
      → let (b, ended, sends) = run a (posted ms) in
        let (last, over, answers) = play g a.players game ms in
        (b.game_state ≡ some last)
        × (b.state ≡ (if over then finished else a.state))
        × (b.players ≡ a.players)
        × (ended ≡ false)
        × (received c sends ≡ map RoomOutbound.message (addressed q answers))
  unfolding run handle is_shutdown play received addressed
  run-play a game [] q c v there o = (there, refl, refl, refl, refl)
  run-play a game ((p, m) ∷ ms) q c v there o =
      let b = (handle_message a p m).0 in
      let (now, state, seats, channels, heard) = handle_message-play a game p m q c v there o in
      let taken = HashSet.contains p a.players && is_ok (g.validate_message game p m) in
      let game' = (g.handle_message game p m).0 in
      let w = handle_message-IsValid a p m v in
      let owns : Owns b q c = record {
        channel = ap (HashMap.get q) channels ∙ o.channel;
        only = λ r h. o.only r (sym (ap (HashMap.get r) channels) ∙ h);
      } in
      let later =
        subst
          (λ players.
            Played b.state players q c (run b (posted ms))
              (play g players (if taken then game' else game) ms))
          seats (run-play b (if taken then game' else game) ms q c w now owns) in
      Played-cons taken (g.is_finished game') a.state b.state a.players q c (run b (posted ms))
        (handle_message a p m).1 (g.handle_message game p m).1
        (play g a.players (if taken then game' else game) ms) state heard later
