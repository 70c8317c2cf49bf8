-- ===== src/Server/System/Playing.antt =====
-- A message of a client to the game, from the bytes that the handler receives to the channels of the
-- players of the room.
use archforge.Prelude.{
  ℕ, ◌≡◌, refl, ap, ◌∙◌, false, List, [], ◌∷◌, ◌++◌, some, ok, err, map, arith, nat_eq, true,
  append-nil, append_assoc, length,
}
use archforge.Prelude.HashMap
use archforge.Prelude.HashSet
use archforge.Protocol.{Bytes, PlayerId, RoomId, Recipient}
use archforge.Transport.{Connection}
use archforge.Room.Logic.{GameLogic}
use archforge.Room.Actor.{
  RoomActor, RoomCommand, RoomOutbound, PlayerSender, Sends, handle, handle_message, dispatch,
}
use archforge.Room.Actor.Invariant.{IsValid}
use archforge.Room.Actor.Delivery.{received, received-append, received-dispatch, addressed, Owns}
use archforge.Room.Handle.{run, Room, send_message, post}
use archforge.Room.Manager
use archforge.Room.Manager.{RoomManager, put_room}
use archforge.Room.Handle.Mailbox.{serve_many}
use archforge.Room.Manager.Tasks.{serve_many-last}
use archforge.Room.Manager.Seats.{run_quiet, IsLive, has}
use archforge.Room.Manager.Invariant.{IsValid as IsSeated, in_room}
use archforge.Server.{ServerState}
use archforge.Server.Action.{Handler, decoded}
use archforge.Server.Handler.{handle_game_message, handle_decoded, on_rooms, routed}

-- What the game answers to a message: nothing, if it refuses the message.
abbrev pub answers :
    (g : GameLogic) → g.State → PlayerId → g.ClientMessage → List (Recipient × g.ServerMessage)
answers g game pid msg = elim (g.validate_message game pid msg) [
  | ok u ↦ (g.handle_message game pid msg).1
  | err reason ↦ []
]

-- How the game goes on: as it was, if it refuses the message.
abbrev pub next_game : (g : GameLogic) → g.State → PlayerId → g.ClientMessage → g.State
next_game g game pid msg = elim (g.validate_message game pid msg) [
  | ok u ↦ (g.handle_message game pid msg).0
  | err reason ↦ game
]

module _ {g : GameLogic} where
  module _ {a : RoomActor g} {p : PlayerId} {ch : PlayerSender} (o : Owns a p ch) (v : IsValid a)
      (game : g.State) (there : a.game_state ≡ some game) where
    told-IsValid :
        (b : RoomActor g) (game' : g.State) → b ≡ record a { game_state = some game' } → IsValid b
    told-IsValid b game' e = rw e (record {
      capped = v.capped;
      distinct = v.distinct;
      mapped = v.mapped;
      phase = ground (arith, v.phase, there);
    })

    received-told :
        (game' : g.State) (msgs : List (Recipient × g.ServerMessage))
        → received ch (dispatch (record a { game_state = some game' }) msgs)
          ≡ map RoomOutbound.message (addressed p msgs)
    received-told game' msgs =
        received-dispatch (record { channel = o.channel; only = o.only }) msgs
          (told-IsValid (record a { game_state = some game' }) game' refl)

    received-handle_message :
        (pid : PlayerId) (msg : g.ClientMessage)
        → HashSet.contains pid a.players ≡ true
        → let (b, sends) = handle_message a pid msg in
          (b.game_state ≡ some (next_game g game pid msg))
          × (received ch sends ≡ map RoomOutbound.message (addressed p (answers g game pid msg)))
    unfolding handle_message addressed received
    received-handle_message pid msg member =
        let (game', msgs) = g.handle_message game pid msg in
        ground (arith, member, there, received-told game' msgs)

  -- The room with the message behind what waits in its channel.
  abbrev posted : Room g → PlayerId → g.ClientMessage → Room g
  posted room pid msg = record room { mailbox = room.mailbox ++ RoomCommand.message pid msg ∷ [] }

  route_message-posts :
      (m : RoomManager g) (pid : PlayerId) (msg : g.ClientMessage) (rid : RoomId) (room : Room g)
      → HashMap.get pid m.player_rooms ≡ some rid
      → HashMap.get rid m.rooms ≡ some room
      → room.stopped ≡ false
      → Manager.route_message m pid msg ≡ (put_room m rid (posted room pid msg), ok tt)
  unfolding Manager.route_message send_message post
  route_message-posts m pid msg rid room into there runs = ground (arith, into, there, runs)

  seated-member :
      {m : RoomManager g} {room : Room g} (pid : PlayerId) (rid : RoomId)
      → IsSeated m
      → HashMap.get pid m.player_rooms ≡ some rid
      → HashMap.get rid m.rooms ≡ some room
      → has pid room ≡ true
  unfolding in_room
  seated-member pid rid v into there = ground (arith, there, v.seated pid rid into)

  received-behind :
      (ch : PlayerSender) (own early sends : Sends g)
      → received ch ((own ++ []) ++ (early ++ sends))
        ≡ received ch (own ++ early) ++ received ch sends
  received-behind ch own early sends =
      ground (
        arith,
        append-nil own,
        append_assoc own early sends,
        received-append ch (own ++ early) sends,
      )

  -- The room's task has come to the message.
  serve-posted :
      (rid : RoomId) (room : Room g) (pid : PlayerId) (msg : g.ClientMessage)
      → IsLive rid room
      → let (a, _, early) = run room.actor room.mailbox in
        let (a', sends) = handle_message a pid msg in
        let room' = posted room pid msg in
        serve_many (length room'.mailbox) room'
        ≡ (record room { actor = a'; mailbox = [] }, early ++ sends)
  unfolding handle
  serve-posted rid room pid msg l =
      serve_many-last room room.mailbox (RoomCommand.message pid msg) l.quiet refl

  -- The shared state with the message in the channel of the room.
  abbrev posting : ServerState g → RoomId → Room g → ServerState g
  posting s rid room = record s { rooms = put_room s.rooms rid room; inboxes = s.inboxes ++ [] }

module _ {g : GameLogic} {c : Connection} where
  handle_game_message-posts :
      (h : Handler g c) (pid : PlayerId) (now : ℕ) (b : Bytes) (msg : g.ClientMessage)
      (rid : RoomId) (room : Room g)
      → h.server.codec.client_message.decode b ≡ ok msg
      → Manager.route_message h.server.rooms pid msg
        ≡ (put_room h.server.rooms rid (posted room pid msg), ok tt)
      → handle_game_message pid now b h
        ≡ (record h { server = posting h.server rid (posted room pid msg) }, ok tt)
  unfolding handle_game_message handle_decoded decoded on_rooms routed
  handle_game_message-posts h pid now b msg rid room good posts = ground (arith, good, posts)

  -- A message of a client to the game reaches the room and its players. If the bytes decode, the
  -- player is in a room, and the index and the rooms of the manager agree, the handler posts the
  -- message behind what waits in the channel of the room, without an error, and sends the client
  -- nothing. When the task of the room has served its channel, the game has gone on by the message if
  -- it takes it, and is as the commands before left it if not; and each player of the room who listens
  -- on a channel of their own finds in it, behind what was sent before, what the game answers for
  -- them, in the order of the game, and nothing if the game refuses. This holds if the room has a game
  -- when its task comes to the message.
  pub handle_game_message-Played :
      (h : Handler g c) (pid : PlayerId) (now : ℕ) (b : Bytes) (msg : g.ClientMessage)
      (rid : RoomId) (room : Room g) (game : g.State) (p : PlayerId) (ch : PlayerSender)
      → h.server.codec.client_message.decode b ≡ ok msg
      → IsSeated h.server.rooms
      → HashMap.get pid h.server.rooms.player_rooms ≡ some rid
      → HashMap.get rid h.server.rooms.rooms ≡ some room
      → (run room.actor room.mailbox).0.game_state ≡ some game
      → Owns (run room.actor room.mailbox).0 p ch
      → let (h', answer) = handle_game_message pid now b h in
        let before = h.server.inboxes ++ (run room.actor room.mailbox).2 in
        (answer ≡ ok tt)
        × (h'.sent ≡ h.sent)
        × ((room' : Room g) × (HashMap.get rid h'.server.rooms.rooms ≡ some room')
            × (let (later, sends) = serve_many (length room'.mailbox) room' in
                (later.actor.game_state ≡ some (next_game g game pid msg))
                × (received ch (h'.server.inboxes ++ sends)
                    ≡ received ch before
                      ++ map RoomOutbound.message (addressed p (answers g game pid msg)))))
  handle_game_message-Played h pid now b msg rid room game p ch good v into there playing o =
      let l = v.live rid room there in
      let posts = route_message-posts h.server.rooms pid msg rid room into there l.running in
      let did = handle_game_message-posts h pid now b msg rid room good posts in
      let (a, _, early) = run room.actor room.mailbox in
      let (_, w, same, _) = run_quiet room.actor room.mailbox l.quiet l.valid in
      let member = seated-member pid rid v into there in
      let (goes_on, told) =
        received-handle_message o w game playing pid msg
          (ap (HashSet.contains pid) same ∙ member) in
      let served = serve-posted rid room pid msg l in
      let more = (handle_message a pid msg).1 in
      rw did (
        refl,
        refl,
        (
          posted room pid msg,
          ground (arith, HashMap.get-insert rid rid (posted room pid msg) h.server.rooms.rooms),
          (
            ap (λ x. x.0.actor.game_state) served ∙ goes_on,
            ap (λ x. received ch ((h.server.inboxes ++ []) ++ x.1)) served
                ∙ received-behind ch h.server.inboxes early more
                ∙ ap (λ r. received ch (h.server.inboxes ++ early) ++ r) told,
          ),
        ),
      )
