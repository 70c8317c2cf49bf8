-- ===== src/Room/Manager/Openings.antt =====
-- Which room `join_or_create` picks.
use archforge.Prelude.{
  suc, ◌^◌, ◌<◌, ◌≡◌, refl, ◌∙◌, ap, Bool, true, false, ◌&&◌, List, [], ◌∷◌, Option, none, some, ok,
  inl, inr, if◌then◌else◌, nat_eq, arith, Option-cases, Bool-cases, ltb, is_some,
}
use mathlib.Core.Option
use archforge.Prelude.HashMap
use archforge.Prelude.HashSet
use archforge.Protocol.{PlayerId, RoomId}
use archforge.Room.State.{is_joinable}
use archforge.Room.Logic.{GameLogic}
use archforge.Room.Actor.{PlayerSender, RoomInfo, Sends, info, handle, handle_join, auto_start}
use archforge.Room.Handle
use archforge.Room.Handle.{Room, run}
use archforge.Room.Manager.{
  RoomManager, put_room, is_open, take_room, try_info, try_room, try_rooms, join_or_create,
}
use archforge.Room.Manager.History
use archforge.Room.Manager.Seats.{run_quiet, IsLive, has, get_info_seats, get_info-IsLive}
use archforge.Room.Manager.Invariant.{IsValid, in_room}
use archforge.Room.Manager.Matchmaking.{try_room-Tried, try_rooms-Tried, join_new-IsValid}

module _ {g : GameLogic} where
  -- Whether a player can still get into the room, once its task has come to what waits.
  unfoldable pub has_seat : Room g → Bool
  has_seat room =
      let a = (run room.actor room.mailbox).0 in
      is_joinable a.state && ltb (HashSet.len a.players) a.config.max_players

  unfoldable pub open_at : RoomManager g → RoomId → Bool
  unfolding has_seat
  open_at m rid = elim (HashMap.get rid m.rooms) [ none ↦ false | some room ↦ has_seat room ]

  -- The first of the rooms that has a seat.
  unfoldable pub first_open : RoomManager g → List RoomId → Option RoomId
  unfolding open_at
  first_open m [] = none
  first_open m (rid ∷ rids) = if open_at m rid then some rid else first_open m rids

  get_info-drained :
      {rid : RoomId} {room : Room g} → IsLive rid room → (Handle.get_info room).0.mailbox ≡ []
  unfolding Handle.get_info
  get_info-drained {room = room} l =
      let (going, _, _, _) = run_quiet room.actor room.mailbox l.quiet l.valid in
      ground (arith, going, l.running)

  has_seat-get_info :
      {rid : RoomId} {room : Room g}
      → IsLive rid room
      → has_seat (Handle.get_info room).0 ≡ has_seat room
  unfolding has_seat run
  has_seat-get_info {room = room} l =
      let (_, _, _, ran) = get_info_seats l 0 in rw (get_info-drained l, ran) refl

  -- To ask a room for its information gives nobody a seat and takes none.
  open_at-get_info :
      (m : RoomManager g) (rid : RoomId) (room : Room g)
      → HashMap.get rid m.rooms ≡ some room
      → IsLive rid room
      → (r : RoomId) → open_at (put_room m rid (Handle.get_info room).0) r ≡ open_at m r
  unfolding open_at
  open_at-get_info m rid room there l r =
      let room' = (Handle.get_info room).0 in
      ground (
        arith,
        there,
        nat_eq.beq_iff rid r,
        HashMap.get-insert rid r room' m.rooms,
        has_seat-get_info l,
      )

  first_open-ext :
      (m m' : RoomManager g) (order : List RoomId)
      → ((r : RoomId) → open_at m' r ≡ open_at m r)
      → first_open m' order ≡ first_open m order
  unfolding first_open
  first_open-ext m m' [] same = refl
  first_open-ext m m' (r ∷ rs) same = ground (arith, same r, first_open-ext m m' rs same)

  -- A player gets into a room that has a seat and does not have the player.
  join-seat :
      (room : Room g) (pid : PlayerId) (s : PlayerSender)
      → room.stopped ≡ false
      → room.mailbox ≡ []
      → is_joinable room.actor.state ≡ true
      → HashSet.contains pid room.actor.players ≡ false
      → ltb (HashSet.len room.actor.players) room.actor.config.max_players ≡ true
      → (Handle.join room pid s).1 ≡ ok tt
  unfolding Handle.join handle handle_join auto_start
  join-seat room pid s up empty waits out seat = ground (arith, up, empty, waits, out, seat)

  module _ (pid : PlayerId) (s : PlayerSender) where
    try_info-found :
        (m : RoomManager g) (rid : RoomId) (room : Room g) (i : RoomInfo) (sends : Sends g)
        → i.room_id ≡ rid
        → (is_open i ≡ true → (Handle.join room pid s).1 ≡ ok tt)
        → (try_info m pid s rid room (ok i) sends).1 ≡ (if is_open i then some rid else none)
    unfolding try_info take_room
    try_info-found m rid room i sends name joins = elim (Bool-cases (is_open i)) [
      | inl seat ↦ ground (arith, seat, name, joins seat)
      | inr shut ↦ ground (arith, shut)
    ]

    absent :
        (m : RoomManager g) (rid : RoomId) (room : Room g)
        → IsValid m
        → HashMap.get pid m.player_rooms ≡ none
        → HashMap.get rid m.rooms ≡ some room
        → has pid room ≡ false
    unfolding in_room
    absent m rid room v out there = ground (arith, out, there, v.indexed pid rid)

    joins-open :
        (m : RoomManager g) (rid : RoomId) (room : Room g)
        → IsValid m
        → HashMap.get pid m.player_rooms ≡ none
        → HashMap.get rid m.rooms ≡ some room
        → is_open (info (run room.actor room.mailbox).0) ≡ true
        → (Handle.join (Handle.get_info room).0 pid s).1 ≡ ok tt
    unfolding is_open info
    joins-open m rid room v out there seat =
        let l = v.live rid room there in
        let (same, _, _, ran) = get_info_seats l pid in
        let room' = (Handle.get_info room).0 in
        let i = (run room.actor room.mailbox).0 in
        join-seat room' pid s (get_info-IsLive l).running (get_info-drained l)
          (ground (arith, seat, ran)) (same ∙ absent m rid room v out there)
          (ground (arith, seat, ran))

    -- A round of the loop finds a room exactly if it has a seat.
    try_room-open_at :
        (m : RoomManager g) (rid : RoomId)
        → IsValid m
        → HashMap.get pid m.player_rooms ≡ none
        → (try_room m pid s rid).1 ≡ (if open_at m rid then some rid else none)
    unfolding try_room open_at has_seat is_open info
    try_room-open_at m rid v out = elim (Option-cases (HashMap.get rid m.rooms)) [
      | inl gone ↦ ground (arith, gone)
      | inr (room, there) ↦
          let l = v.live rid room there in
          let room' = (Handle.get_info room).0 in
          let (_, answer, name, _) = get_info_seats l pid in
          let i = info (run room.actor room.mailbox).0 in
          rw (there, try_room, open_at, answer)
            (try_info-found (put_room m rid room') rid room' i (Handle.get_info room).2 name
              (joins-open m rid room v out there))
    ]

    -- A round that finds no room leaves the seats as they are.
    try_room_shut :
        (m : RoomManager g) (rid : RoomId)
        → IsValid m
        → open_at m rid ≡ false
        → (r : RoomId) → open_at (try_room m pid s rid).0 r ≡ open_at m r
    unfolding try_room try_info has_seat is_open info
    try_room_shut m rid v shut r = elim (Option-cases (HashMap.get rid m.rooms)) [
      | inl gone ↦ rw (gone, try_room) refl
      | inr (room, there) ↦
          let l = v.live rid room there in
          let (_, answer, _, _) = get_info_seats l pid in
          let closed : has_seat room ≡ false = unfold open_at in ground (arith, shut, there) in
          rw (there, try_room, answer, closed) (open_at-get_info m rid room there l r)
    ]

    -- The loop finds the first room with a seat.
    try_rooms-first_open :
        (m : RoomManager g) (order : List RoomId)
        → IsValid m
        → HashMap.get pid m.player_rooms ≡ none
        → (try_rooms m pid s order).1 ≡ first_open m order
    unfolding try_rooms first_open
    try_rooms-first_open m [] v out = refl
    try_rooms-first_open m (rid ∷ rids) v out =
        let one = try_room-open_at m rid v out in
        elim (Bool-cases (open_at m rid)) [
          | inl seat ↦ ground (arith, one, seat)
          | inr shut ↦
              let m' = (try_room m pid s rid).0 in
              let (w, standing, _) = try_room-Tried pid s m rid v out in
              let none_found : (try_room m pid s rid).1 ≡ none = ground (arith, one, shut) in
              let later = try_rooms-first_open m' rids w (standing ∙ none_found) in
              let same = first_open-ext m m' rids (try_room_shut m rid v shut) in
              ground (arith, none_found, shut, later, same)
        ]

    pub join_or_create-first_open :
        (m : RoomManager g) (order : List RoomId) (c : g.Config)
        → IsValid m
        → HashMap.get pid m.player_rooms ≡ none
        → suc m.next_room_id < 2 ^ 64
        → 0 < g.room_config.max_players
        → let (m', answer, _) = join_or_create m order pid c s in
          let found = first_open m order in
          (answer ≡ ok (Option.get_or found m.next_room_id))
          × (HashMap.get pid m'.player_rooms ≡ some (Option.get_or found m.next_room_id))
          × (m'.next_room_id ≡ (if is_some found then m.next_room_id else suc m.next_room_id))
    unfolding join_or_create
    join_or_create-first_open m order c v out h positive =
        let (m', found, sends) = try_rooms m pid s order in
        let (w, into, kept) = try_rooms-Tried pid s m order v out in
        let first = try_rooms-first_open m order v out in
        elim (Option-cases found) [
          | inr (rid, e) ↦ rw (out, join_or_create, ← first, e) (refl, into ∙ e, kept)
          | inl e ↦
              let fits : suc m'.next_room_id < 2 ^ 64 = omega (arith, kept) in
              let (_, r, seated) = join_new-IsValid pid s m' c w (into ∙ e) fits positive in
              let (_, next) = History.join_new-IsValid m' pid c s w (into ∙ e) fits in
              rw (out, join_or_create, ← first, e)
                (r ∙ ap ok kept, seated ∙ ap some kept, next ∙ ap suc kept)
        ]
