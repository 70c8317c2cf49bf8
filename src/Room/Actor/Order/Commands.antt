-- ===== src/Room/Actor/Order/Commands.antt =====
-- Each command of the room actor under another order of its hash set and its hash map.
use archforge.Prelude.{
  is_ok, ◌≡◌, refl, Bool, true, false, List, [], ◌∷◌, Option, none, some, ok, arith, ◌&&◌,
  if◌then◌else◌, nat_eq, inl, inr, Option-cases, err,
}
use archforge.Prelude.HashMap
use archforge.Prelude.HashSet
use archforge.Prelude.Sort.{sort-eq_of_perm}
use archforge.Protocol.{PlayerId, Recipient, all, player, all_except}
use archforge.Room.State.{is_active, finished}
use archforge.Room.Logic.{GameLogic}
use archforge.Room.Actor.{
  RoomActor, RoomOutbound, PlayerSender, handle_join, handle_leave, handle_message, auto_start,
  info, transition_to_starting, dispatch, dispatch_to, send_to, send_each, send_each_except,
  finish_if, notify_disconnect, apply_message,
}
use archforge.Room.Actor.Order.{Same, contains-Same, len-Same, entered-Same, left-Same}

-- What the game answers to the leave of a player, and to a message.
abbrev disconnect_messages :
    (g : GameLogic) → PlayerId → Option g.State → List (Recipient × g.ServerMessage)
disconnect_messages g pid none = []
disconnect_messages g pid (some game) = (g.on_player_disconnect game pid).1

abbrev played_messages :
    (g : GameLogic)
    → PlayerId
    → g.ClientMessage
    → Option g.State
    → List (Recipient × g.ServerMessage)
played_messages g pid msg none = []
played_messages g pid msg (some game) = elim (g.validate_message game pid msg) [
  | ok u ↦ (g.handle_message game pid msg).1
  | err reason ↦ []
]

module _ {g : GameLogic} where
  -- What is sent goes by the players and their channels alone.
  module _ (a b : RoomActor g) (seats : a.players ≡ b.players)
      (channels : a.senders ≡ b.senders) where
    send_to-eq : (p : PlayerId) (m : RoomOutbound g) → send_to a p m ≡ send_to b p m
    unfolding send_to
    send_to-eq p m = ground (arith, channels)

    send_each-eq : (ps : List PlayerId) (m : RoomOutbound g) → send_each a ps m ≡ send_each b ps m
    unfolding send_each
    send_each-eq [] m = refl
    send_each-eq (p ∷ ps) m = ground (arith, send_to-eq p m, send_each-eq ps m)

    send_each_except-eq :
        (x : PlayerId) (ps : List PlayerId) (m : RoomOutbound g)
        → send_each_except a x ps m ≡ send_each_except b x ps m
    unfolding send_each_except
    send_each_except-eq x [] m = refl
    send_each_except-eq x (p ∷ ps) m = ground (arith, send_to-eq p m, send_each_except-eq x ps m)

    dispatch_to-eq : (r : Recipient) (m : RoomOutbound g) → dispatch_to a r m ≡ dispatch_to b r m
    unfolding dispatch_to
    dispatch_to-eq all m = ground (arith, seats, send_each-eq a.players.members m)
    dispatch_to-eq (player p) m = send_to-eq p m
    dispatch_to-eq (all_except x) m =
        ground (arith, seats, send_each_except-eq x a.players.members m)

    dispatch-eq : (msgs : List (Recipient × g.ServerMessage)) → dispatch a msgs ≡ dispatch b msgs
    unfolding dispatch
    dispatch-eq [] = refl
    dispatch-eq ((r, m) ∷ msgs) =
        ground (arith, dispatch_to-eq r (RoomOutbound.message m), dispatch-eq msgs)

  module _ {a b : RoomActor g} (s : Same a b) where
    auto_start-Same :
        let (a', r, _) = auto_start a in let (b', r', _) = auto_start b in Same a' b' × (r ≡ r')
    unfolding auto_start transition_to_starting
    auto_start-Same = ground (arith, len-Same s, sort-eq_of_perm s.players)

    pub handle_leave-Same :
        (pid : PlayerId)
        → let (a', r, _) = handle_leave a pid in
          let (b', r', _) = handle_leave b pid in Same a' b' × (r ≡ r')
    unfolding handle_leave
    handle_leave-Same pid = ground (arith, contains-Same s pid, left-Same s pid)

    pub handle_message-Same :
        (pid : PlayerId) (msg : g.ClientMessage)
        → Same (handle_message a pid msg).0 (handle_message b pid msg).0
    unfolding handle_message
    handle_message-Same pid msg = ground (arith, contains-Same s pid)

    pub info-Same : info a ≡ info b
    unfolding info
    info-Same = ground (arith, len-Same s)

  pub handle_join-Same :
      {a b : RoomActor g} (s : Same a b) (pid : PlayerId) (c : PlayerSender)
      → let (a', r, _) = handle_join a pid c in
        let (b', r', _) = handle_join b pid c in Same a' b' × (r ≡ r')
  unfolding handle_join
  handle_join-Same s pid c =
      ground (arith, contains-Same s pid, len-Same s, auto_start-Same (entered-Same s pid c))

  -- A dispatch before the room is finished is one after it.
  dispatch-finish_if :
      (a : RoomActor g) (over : Bool) (msgs : List (Recipient × g.ServerMessage))
      → dispatch a msgs ≡ dispatch (finish_if over a) msgs
  unfolding finish_if
  dispatch-finish_if a true msgs = dispatch-eq a (record a { state = finished }) refl refl msgs
  dispatch-finish_if a false msgs = refl

  notify_disconnect_sends :
      (a : RoomActor g) (pid : PlayerId) (game : Option g.State)
      → let (b, sends) = notify_disconnect a pid game in
        sends ≡ dispatch b (disconnect_messages g pid game)
  unfolding notify_disconnect
  notify_disconnect_sends a pid none = unfold dispatch in refl
  notify_disconnect_sends a pid (some game) =
      let (game', msgs) = g.on_player_disconnect game pid in
      dispatch-finish_if (record a { game_state = some game' }) (g.is_finished game') msgs

  pub leave_messages : RoomActor g → PlayerId → List (Recipient × g.ServerMessage)
  leave_messages a pid =
      if HashSet.contains pid a.players && is_active a.state
      then disconnect_messages g pid a.game_state
      else []

  pub handle_leave_sends :
      (a : RoomActor g) (pid : PlayerId)
      → let (b, _, sends) = handle_leave a pid in sends ≡ dispatch b (leave_messages a pid)
  unfolding handle_leave leave_messages dispatch
  handle_leave_sends a pid =
      let left = record a {
        players = HashSet.remove pid a.players;
        senders = HashMap.remove pid a.senders;
      } in
      ground (arith, notify_disconnect_sends left pid a.game_state)

  pub message_messages :
      RoomActor g → PlayerId → g.ClientMessage → List (Recipient × g.ServerMessage)
  message_messages a pid msg =
      if HashSet.contains pid a.players then played_messages g pid msg a.game_state else []

  pub message_messages_lem :
      (a : RoomActor g) (game : g.State) (pid : PlayerId) (msg : g.ClientMessage)
      → a.game_state ≡ some game
      → message_messages a pid msg ≡ (
          if HashSet.contains pid a.players && is_ok (g.validate_message game pid msg)
          then (g.handle_message game pid msg).1
          else [])
  unfolding message_messages
  message_messages_lem a game pid msg there = ground (arith, there)

  apply_message_sends :
      (a : RoomActor g) (game : g.State) (pid : PlayerId) (msg : g.ClientMessage)
      → let (b, sends) = apply_message a game pid msg in
        sends ≡ dispatch b (g.handle_message game pid msg).1
  unfolding apply_message
  apply_message_sends a game pid msg =
      let (game', msgs) = g.handle_message game pid msg in
      dispatch-finish_if (record a { game_state = some game' }) (g.is_finished game') msgs

  pub handle_message_sends :
      (a : RoomActor g) (pid : PlayerId) (msg : g.ClientMessage)
      → let (b, sends) = handle_message a pid msg in sends ≡ dispatch b (message_messages a pid msg)
  unfolding handle_message message_messages dispatch
  handle_message_sends a pid msg = elim (Option-cases a.game_state) [
    | inl idle ↦ ground (arith, idle)
    | inr (game, on) ↦ ground (arith, on, apply_message_sends a game pid msg)
  ]

  pub leave_messages-Same :
      {a b : RoomActor g} (s : Same a b) (pid : PlayerId)
      → leave_messages a pid ≡ leave_messages b pid
  unfolding leave_messages
  leave_messages-Same s pid = ground (arith, contains-Same s pid)

  pub message_messages-Same :
      {a b : RoomActor g} (s : Same a b) (pid : PlayerId) (msg : g.ClientMessage)
      → message_messages a pid msg ≡ message_messages b pid msg
  unfolding message_messages
  message_messages-Same s pid msg = ground (arith, contains-Same s pid)
