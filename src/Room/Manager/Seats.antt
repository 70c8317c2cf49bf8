-- ===== src/Room/Manager/Seats.antt =====
-- What the manager's invariant asks of one room, and what the calls of a room do to its players.
use archforge.Prelude.{
  ◌≡◌, refl, ◌∙◌, Bool, true, false, ◌&&◌, List, [], ◌∷◌, ◌++◌, ok, is_ok, ◌==◌, if◌then◌else◌,
  nat_eq, arith, every, every-append,
}
use archforge.Prelude.HashSet
use archforge.Protocol.{PlayerId, RoomId}
use archforge.Room.State.{RoomConfig}
use archforge.Room.Logic.{GameLogic}
use archforge.Room.Actor.{
  RoomActor, RoomCommand, PlayerSender, handle, handle_join, handle_leave, auto_start, info,
}
use archforge.Room.Actor.Invariant.{
  IsValid, handle_join-IsValid, handle_leave-IsValid, handle-IsValid, initial-IsValid,
}
use archforge.Room.Handle
use archforge.Room.Handle.{Room, run, is_shutdown, as_result}

module _ {g : GameLogic} where
  -- The commands that nobody waits for, but `Shutdown`.
  abbrev pub is_quiet : RoomCommand g → Bool
  is_quiet (RoomCommand.message p m) = true
  is_quiet (RoomCommand.get_state) = true
  is_quiet _ = false

  -- The task of the room `rid` runs, and only such commands wait in its channel.
  pub record IsLive (rid : RoomId) (r : Room g) : Type 0 where
    pub named : r.room_id ≡ rid
    pub actor_named : r.actor.room_id ≡ rid
    pub running : r.stopped ≡ false
    pub quiet : every is_quiet r.mailbox ≡ true
    pub valid : IsValid r.actor

  abbrev pub has : PlayerId → Room g → Bool
  has p r = HashSet.contains p r.actor.players

  pub handle_quiet :
      (a : RoomActor g) (c : RoomCommand g)
      → is_quiet c ≡ true
      → (is_shutdown c ≡ false)
        × ((handle a c).0.players ≡ a.players)
        × ((handle a c).0.room_id ≡ a.room_id)
  unfolding handle is_shutdown
  handle_quiet a (RoomCommand.message p m) h = ground arith
  handle_quiet a c h = ground arith

  -- What waits in the channel of a live room leaves its players as they are.
  pub run_quiet :
      (a : RoomActor g) (q : List (RoomCommand g))
      → every is_quiet q ≡ true
      → IsValid a
      → let (b, ended, _) = run a q in
        (ended ≡ false) × IsValid b × (b.players ≡ a.players) × (b.room_id ≡ a.room_id)
  unfolding run every
  run_quiet a [] h v = (refl, v, refl, refl)
  run_quiet a (c ∷ q) h v =
      let (here, seats, name) = handle_quiet a c (ground arith) in
      let (later, w, seats', name') =
        run_quiet (handle a c).0 q (ground arith) (handle-IsValid a c v) in
      rw here (later, w, seats' ∙ seats, name' ∙ name)

  handle_join_seats :
      (a : RoomActor g) (pid : PlayerId) (s : PlayerSender) (q : PlayerId)
      → let (b, r, _) = handle_join a pid s in
        (HashSet.contains q b.players
          ≡ (if is_ok r && (pid == q) then true else HashSet.contains q a.players))
        × (b.room_id ≡ a.room_id)
  unfolding handle_join auto_start
  handle_join_seats a pid s q = ground (arith, HashSet.contains-insert pid q a.players)

  handle_leave_seats :
      (a : RoomActor g) (pid : PlayerId) (q : PlayerId)
      → let (b, r, _) = handle_leave a pid in
        (HashSet.contains q b.players
          ≡ (if is_ok r && (pid == q) then false else HashSet.contains q a.players))
        × (b.room_id ≡ a.room_id)
        × (is_ok r ≡ HashSet.contains pid a.players)
  unfolding handle_leave
  handle_leave_seats a pid q = ground (arith, HashSet.contains-remove pid q a.players)

  module _ {rid : RoomId} {r : Room g} (l : IsLive rid r) where
    pub join_seats :
        (pid : PlayerId) (s : PlayerSender) (q : PlayerId)
        → let (r', answer, _) = Handle.join r pid s in
          has q r' ≡ (if is_ok answer && (pid == q) then true else has q r)
    unfolding Handle.join handle is_shutdown
    join_seats pid s q =
        let (going, v, seats, name) = run_quiet r.actor r.mailbox l.quiet l.valid in
        ground (arith, going, l.running, seats, handle_join_seats (run r.actor r.mailbox).0 pid s q)

    pub join-IsLive : (pid : PlayerId) (s : PlayerSender) → IsLive rid (Handle.join r pid s).0
    unfolding Handle.join handle is_shutdown every
    join-IsLive pid s =
        let (going, v, seats, name) = run_quiet r.actor r.mailbox l.quiet l.valid in
        let a = (run r.actor r.mailbox).0 in
        rw (l.running, going)
          (record {
            named = l.named;
            actor_named = (handle_join_seats a pid s pid).1 ∙ name ∙ l.actor_named;
            running = refl;
            quiet = refl;
            valid = handle_join-IsValid a pid s v;
          })

    pub leave_seats :
        (pid q : PlayerId)
        → let (r', answer, _) = Handle.leave_room r pid in
          (has q r' ≡ (if is_ok answer && (pid == q) then false else has q r))
          × (is_ok answer ≡ has pid r)
    unfolding Handle.leave_room handle is_shutdown
    leave_seats pid q =
        let (going, v, seats, name) = run_quiet r.actor r.mailbox l.quiet l.valid in
        ground (arith, going, l.running, seats, handle_leave_seats (run r.actor r.mailbox).0 pid q)

    pub leave-IsLive : (pid : PlayerId) → IsLive rid (Handle.leave_room r pid).0
    unfolding Handle.leave_room handle is_shutdown every
    leave-IsLive pid =
        let (going, v, seats, name) = run_quiet r.actor r.mailbox l.quiet l.valid in
        let a = (run r.actor r.mailbox).0 in
        rw (l.running, going)
          (record {
            named = l.named;
            actor_named = (handle_leave_seats a pid pid).1 ∙ name ∙ l.actor_named;
            running = refl;
            quiet = refl;
            valid = handle_leave-IsValid a pid v;
          })

    -- The room's answer about itself: its own id, and its players.
    pub get_info_seats :
        (q : PlayerId)
        → let (r', answer, _) = Handle.get_info r in
          (has q r' ≡ has q r)
          × (answer ≡ ok (info (run r.actor r.mailbox).0))
          × ((run r.actor r.mailbox).0.room_id ≡ rid)
          × (r'.actor ≡ (run r.actor r.mailbox).0)
    unfolding Handle.get_info handle is_shutdown
    get_info_seats q =
        let (going, v, seats, name) = run_quiet r.actor r.mailbox l.quiet l.valid in
        ground (arith, going, l.running, seats, name, l.actor_named)

    pub get_info-IsLive : IsLive rid (Handle.get_info r).0
    unfolding Handle.get_info handle is_shutdown every
    get_info-IsLive =
        let (going, v, seats, name) = run_quiet r.actor r.mailbox l.quiet l.valid in
        rw (l.running, going)
          (record {
            named = l.named;
            actor_named = name ∙ l.actor_named;
            running = refl;
            quiet = refl;
            valid = v;
          })

    -- A message only goes into the channel of a live room, and is accepted.
    pub send_message_seats :
        (pid : PlayerId) (msg : g.ClientMessage)
        → let (r', answer) = Handle.send_message r pid msg in
          (answer ≡ ok tt)
          × (r'.actor ≡ r.actor)
          × (r'.mailbox ≡ r.mailbox ++ RoomCommand.message pid msg ∷ [])
    unfolding Handle.send_message
    send_message_seats pid msg = ground (arith, l.running)

    pub send_message-IsLive :
        (pid : PlayerId) (msg : g.ClientMessage) → IsLive rid (Handle.send_message r pid msg).0
    unfolding Handle.send_message
    send_message-IsLive pid msg = rw l.running (record {
      named = l.named;
      actor_named = l.actor_named;
      running = refl;
      quiet =
          every-append is_quiet r.mailbox (RoomCommand.message pid msg ∷ []) l.quiet
            (unfold every in refl);
      valid = l.valid;
    })

  pub spawn_room-IsLive :
      (rid : RoomId) (c : RoomConfig) (gc : g.Config)
      → IsLive rid (Handle.spawn_room {g = g} rid c gc)
  unfolding Handle.spawn_room every
  spawn_room-IsLive rid c gc = record {
    named = refl;
    actor_named = refl;
    running = refl;
    quiet = refl;
    valid = initial-IsValid rid c gc;
  }

pub spawn_room_empty :
    (g : GameLogic) (rid : RoomId) (c : RoomConfig) (gc : g.Config) (q : PlayerId)
    → has q (Handle.spawn_room {g = g} rid c gc) ≡ false
unfolding Handle.spawn_room
spawn_room_empty g rid c gc q = HashSet.contains-new q
