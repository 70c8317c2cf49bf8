-- ===== src/Room/Manager/Matchmaking.antt =====
-- `join_or_create` and `list_rooms`: the loops over the rooms.
use archforge.Prelude.{
  suc, ◌^◌, ◌<◌, ◌≡◌, refl, ◌∙◌, ap, ◌>>=◌, true, ◌&&◌, List, [], ◌∷◌, Option, none, some, Result,
  ok, err, is_ok, inl, inr, ◌==◌, if◌then◌else◌, nat_eq, arith, Option-cases, Bool-cases,
}
use archforge.Prelude.HashMap
use archforge.Prelude.HashSet
use archforge.Protocol.{PlayerId, RoomId}
use archforge.Room.State.{RoomError, is_joinable}
use archforge.Room.Logic.{GameLogic}
use archforge.Room.Actor.{PlayerSender, RoomInfo, Sends, info, handle, handle_join, auto_start}
use archforge.Room.Handle
use archforge.Room.Handle.{Room, run}
use archforge.Room.Manager.{
  RoomManager, put_room, create_room, join_in, get_room_info, list_rooms, is_open, take_room,
  try_info, try_room, try_rooms, join_new, join_or_create,
}
use archforge.Room.Manager.Seats.{
  IsLive, has, join_seats, join-IsLive, get_info_seats, get_info-IsLive,
}
use archforge.Room.Manager.Invariant.{IsValid, put_room-IsValid, seat-IsValid}
use archforge.Room.Manager.Operations.{join_in-IsValid, get_room_info-IsValid, create_room-IsValid}

-- A player joins a room that was just made, if the game lets anyone join.
join_spawned :
    (g : GameLogic) (pid : PlayerId) (s : PlayerSender) (rid : RoomId) (c : g.Config)
    → 0 < g.room_config.max_players
    → (Handle.join (Handle.spawn_room {g = g} rid g.room_config c) pid s).1 ≡ ok tt
unfolding Handle.join Handle.spawn_room handle handle_join auto_start is_joinable
join_spawned g pid s rid c h = ground (arith, HashSet.contains-new pid, HashSet.len-new PlayerId)

module _ {g : GameLogic} where
  pub list_rooms-IsValid :
      (m : RoomManager g) (order : List RoomId) → IsValid m → IsValid (list_rooms m order).0
  unfolding list_rooms
  list_rooms-IsValid m [] v = v
  list_rooms-IsValid m (rid ∷ rids) v =
      list_rooms-IsValid (get_room_info m rid).0 rids (get_room_info-IsValid v rid)

  module _ (pid : PlayerId) (s : PlayerSender) where
    -- After a round of the loop the manager is valid, and the player is in the room that was found,
    -- or still in none and no id was used up.
    abbrev pub Tried : RoomManager g → RoomManager g × Option RoomId × Sends g → Type 0
    Tried m (m', found, _) =
        IsValid m' × (HashMap.get pid m'.player_rooms ≡ found) × (m'.next_room_id ≡ m.next_room_id)

    take_room-Tried :
        (m : RoomManager g) (rid : RoomId) (old room : Room g)
        (answer : Result RoomError (Unit {0})) (sends : Sends g)
        → IsValid m
        → HashMap.get rid m.rooms ≡ some old
        → HashMap.get pid m.player_rooms ≡ none
        → IsLive rid room
        → ((p : PlayerId) → has p room ≡ (if is_ok answer && (pid == p) then true else has p old))
        → Tried m (take_room (put_room m rid room) pid rid answer sends)
    unfolding take_room
    take_room-Tried m rid old room (err e) sends v there out l seats =
        (put_room-IsValid v there l seats, out, refl)
    take_room-Tried m rid old room (ok _) sends v there out l seats = (
      seat-IsValid v there l pid out seats,
      ground (arith, HashMap.get-insert pid pid rid m.player_rooms),
      refl,
    )

    try_info-Tried :
        (m : RoomManager g) (rid : RoomId) (room : Room g) (i : RoomInfo) (sends : Sends g)
        → IsValid m
        → HashMap.get rid m.rooms ≡ some room
        → HashMap.get pid m.player_rooms ≡ none
        → i.room_id ≡ rid
        → Tried m (try_info m pid s rid room (ok i) sends)
    unfolding try_info
    try_info-Tried m rid room i sends v there out name = elim (Bool-cases (is_open i)) [
      | inr no_seat ↦ rw (no_seat, try_info) (v, out, refl)
      | inl seats ↦
          let l = v.live rid room there in
          let (room', answer, more) = Handle.join room pid s in
          rw (seats, try_info, name)
            (take_room-Tried m rid room room' answer _ v there out (join-IsLive l pid s)
              (join_seats l pid s))
    ]

    pub try_room-Tried :
        (m : RoomManager g) (rid : RoomId)
        → IsValid m
        → HashMap.get pid m.player_rooms ≡ none
        → Tried m (try_room m pid s rid)
    unfolding try_room
    try_room-Tried m rid v out = elim (Option-cases (HashMap.get rid m.rooms)) [
      | inl gone ↦ rw (gone, try_room) (v, out, refl)
      | inr (room, there) ↦
          let l = v.live rid room there in
          let room' = (Handle.get_info room).0 in
          let (_, answer, name, _) = get_info_seats l pid in
          let w = put_room-IsValid v there (get_info-IsLive l) (λ p. (get_info_seats l p).0) in
          rw (there, try_room, answer)
            (try_info-Tried (put_room m rid room') rid room' _ _ w
              (ground (arith, HashMap.get-insert rid rid room' m.rooms)) out (unfold info in name))
    ]

    pub try_rooms-Tried :
        (m : RoomManager g) (order : List RoomId)
        → IsValid m
        → HashMap.get pid m.player_rooms ≡ none
        → Tried m (try_rooms m pid s order)
    unfolding try_rooms
    try_rooms-Tried m [] v out = (v, out, refl)
    try_rooms-Tried m (rid ∷ rids) v out =
        let (m', found, sends) = try_room m pid s rid in
        let (w, into, kept) = try_room-Tried m rid v out in
        elim (Option-cases found) [
          | inr (joined, e) ↦ rw (e, try_rooms) (w, into ∙ e, kept)
          | inl e ↦
              let (w', into', kept') = try_rooms-Tried m' rids w (into ∙ e) in
              rw (e, try_rooms) (w', into', kept' ∙ kept)
        ]

    join_in-eq_ok :
        (m : RoomManager g) (rid : RoomId) (room : Room g)
        → (Handle.join room pid s).1 ≡ ok tt
        → let (m', r, _) = join_in m pid rid s room in
          (r ≡ ok tt) × (HashMap.get pid m'.player_rooms ≡ some rid)
    unfolding join_in
    join_in-eq_ok m rid room e = ground (arith, e, HashMap.get-insert pid pid rid m.player_rooms)

    pub join_new-IsValid :
        (m : RoomManager g) (c : g.Config)
        → IsValid m
        → HashMap.get pid m.player_rooms ≡ none
        → suc m.next_room_id < 2 ^ 64
        → 0 < g.room_config.max_players
        → let (m', r, _) = join_new m pid c s in
          IsValid m'
          × (r ≡ ok m.next_room_id)
          × (HashMap.get pid m'.player_rooms ≡ some m.next_room_id)
    unfolding join_new
    join_new-IsValid m c v out h positive =
        let n = m.next_room_id in
        let room = Handle.spawn_room n g.room_config c in
        let made = (create_room m c).0 in
        let there : HashMap.get n made.rooms ≡ some room =
          unfold create_room in ground (arith, HashMap.get-insert n n room m.rooms) in
        let w = create_room-IsValid v c h in
        let (joined, into) = join_in-eq_ok made n room (join_spawned g pid s n c positive) in
        rw (there, join_new)
          (
            join_in-IsValid w n there pid s (unfold create_room in out),
            ap (λ r. r >>= (λ _. ok n)) joined,
            into,
          )

    -- A player who is in no room always gets one: `join_or_create` answers with a room, the player
    -- is in that room, and the index agrees with the rooms, in whatever order the rooms are visited;
    -- as long as the counter of ids does not wrap and the game lets at least one player into a room.
    pub join_or_create_seats :
        (m : RoomManager g) (order : List RoomId) (c : g.Config)
        → IsValid m
        → HashMap.get pid m.player_rooms ≡ none
        → suc m.next_room_id < 2 ^ 64
        → 0 < g.room_config.max_players
        → let (m', r, _) = join_or_create m order pid c s in
          IsValid m'
          × ((rid : RoomId) × (r ≡ ok rid) × (HashMap.get pid m'.player_rooms ≡ some rid))
    unfolding join_or_create
    join_or_create_seats m order c v out h positive =
        let (m', found, sends) = try_rooms m pid s order in
        let (w, into, kept) = try_rooms-Tried m order v out in
        elim (Option-cases found) [
          | inr (rid, e) ↦ rw (out, join_or_create, e) (w, (rid, refl, into ∙ e))
          | inl e ↦
              let (x, r, seated) =
                join_new-IsValid m' c w (into ∙ e) (omega (arith, kept)) positive in
              rw (out, join_or_create, e) (x, (m'.next_room_id, r, seated))
        ]
