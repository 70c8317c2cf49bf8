-- ===== src/Room/Manager/Operations.antt =====
-- The manager's operations and its invariant.
use archforge.Prelude.{
  ℕ, suc, ◌^◌, ◌<◌, ◌≡◌, true, false, ◌&&◌, none, some, Result, ok, err, is_ok, inl, inr, ◌==◌,
  if◌then◌else◌, nat_eq, arith, Option-cases,
}
use archforge.Prelude.HashMap
use archforge.Protocol.{PlayerId, RoomId}
use archforge.Room.State.{RoomError}
use archforge.Room.Logic.{GameLogic}
use archforge.Room.Actor.{PlayerSender}
use archforge.Room.Handle
use archforge.Room.Handle.{Room, run}
use archforge.Room.Manager.{
  RoomManager, put_room, new, create_room, seat, join_in, join_room, unseat, leave_room,
  route_message, get_room_info, destroy_room,
}
use archforge.Room.Manager.Seats.{
  IsLive, has, join_seats, join-IsLive, leave_seats, leave-IsLive, get_info_seats, get_info-IsLive,
  send_message_seats, send_message-IsLive, spawn_room-IsLive, spawn_room_empty,
}
use archforge.Room.Manager.Invariant.{
  IsValid, in_room, put_room-IsValid, seat-IsValid, unseat-IsValid,
}

module _ {g : GameLogic} where
  pub new-IsValid : (n : ℕ) → IsValid (new {g = g} n)
  unfolding new in_room
  new-IsValid n = record {
    live = λ r x h. ground (arith, HashMap.get-new {V = Room g} r);
    seated = λ p r h. ground (arith, HashMap.get-new {V = RoomId} p);
    indexed = λ p r h. ground (arith, HashMap.get-new {V = Room g} r);
    fresh = λ r x h. ground (arith, HashMap.get-new {V = Room g} r);
  }

  module _ {m : RoomManager g} (v : IsValid m) where
    module _ (rid : RoomId) {old : Room g} (there : HashMap.get rid m.rooms ≡ some old) where
      seat_answer :
          {room : Room g} (pid : PlayerId) (answer : Result RoomError (Unit {0}))
          → HashMap.get pid m.player_rooms ≡ none
          → IsLive rid room
          → ((p : PlayerId) → has p room ≡ (if is_ok answer && (pid == p) then true else has p old))
          → IsValid (seat (put_room m rid room) pid rid answer).0
      unfolding seat
      seat_answer pid (ok _) out l seats = seat-IsValid v there l pid out seats
      seat_answer pid (err e) out l seats = put_room-IsValid v there l seats

      pub join_in-IsValid :
          (pid : PlayerId) (s : PlayerSender)
          → HashMap.get pid m.player_rooms ≡ none
          → IsValid (join_in m pid rid s old).0
      unfolding join_in
      join_in-IsValid pid s out =
          let l = v.live rid old there in
          seat_answer pid (Handle.join old pid s).1 out (join-IsLive l pid s) (join_seats l pid s)

      unseat_answer :
          {room : Room g} (pid : PlayerId) (answer : Result RoomError (Unit {0}))
          → HashMap.get pid m.player_rooms ≡ some rid
          → IsLive rid room
          → ((p : PlayerId)
              → has p room ≡ (if is_ok answer && (pid == p) then false else has p old))
          → IsValid (unseat (put_room m rid room) pid answer).0
      unfolding unseat
      unseat_answer pid (ok _) into l seats = unseat-IsValid v there l pid into seats
      unseat_answer pid (err e) into l seats = put_room-IsValid v there l seats

    pub join_room-IsValid :
        (pid : PlayerId) (rid : RoomId) (s : PlayerSender) → IsValid (join_room m pid rid s).0
    unfolding join_room
    join_room-IsValid pid rid s = elim (Option-cases (HashMap.get pid m.player_rooms)) [
      | inr (current, e) ↦ ground (arith, e)
      | inl out ↦ elim (Option-cases (HashMap.get rid m.rooms)) [
        | inl gone ↦ rw (out, join_room, gone) v
        | inr (room, there) ↦ rw (out, join_room, there) (join_in-IsValid rid there pid s out)
      ]
    ]

    pub leave_room-IsValid : (pid : PlayerId) → IsValid (leave_room m pid).0
    unfolding leave_room in_room
    leave_room-IsValid pid = elim (Option-cases (HashMap.get pid m.player_rooms)) [
      | inl out ↦ ground (arith, out)
      | inr (rid, into) ↦ elim (Option-cases (HashMap.get rid m.rooms)) [
        | inl gone ↦ absurd (ground (arith, v.seated pid rid into))
        | inr (room, there) ↦
            let l = v.live rid room there in
            rw (into, leave_room, there)
              (unseat_answer rid there pid (Handle.leave_room room pid).1 into (leave-IsLive l pid)
                (λ p. (leave_seats l pid p).0))
      ]
    ]

    -- Who is in a room can leave it.
    pub leave_room-ok :
        (pid : PlayerId) (rid : RoomId)
        → HashMap.get pid m.player_rooms ≡ some rid
        → let (m', r, _) = leave_room m pid in
          (r ≡ ok tt) × (HashMap.get pid m'.player_rooms ≡ none)
    unfolding leave_room unseat in_room
    leave_room-ok pid rid into = elim (Option-cases (HashMap.get rid m.rooms)) [
      | inl gone ↦ absurd (ground (arith, v.seated pid rid into, gone))
      | inr (room, there) ↦
          let (_, left) = leave_seats (v.live rid room there) pid pid in
          let good : (Handle.leave_room room pid).1 ≡ ok tt =
            ground (arith, v.seated pid rid into, there, left) in
          ground (arith, into, there, good, HashMap.get-remove pid pid m.player_rooms)
    ]

    pub route_message-IsValid :
        (pid : PlayerId) (msg : g.ClientMessage) → IsValid (route_message m pid msg).0
    unfolding route_message
    route_message-IsValid pid msg = elim (Option-cases (HashMap.get pid m.player_rooms)) [
      | inl out ↦ ground (arith, out)
      | inr (rid, into) ↦ elim (Option-cases (HashMap.get rid m.rooms)) [
        | inl gone ↦ rw (into, route_message, gone) v
        | inr (room, there) ↦
            let l = v.live rid room there in
            rw (into, route_message, there)
              (put_room-IsValid v there (send_message-IsLive l pid msg)
                (λ p. cc ((send_message_seats l pid msg).1)))
      ]
    ]

    pub get_room_info-IsValid : (rid : RoomId) → IsValid (get_room_info m rid).0
    unfolding get_room_info
    get_room_info-IsValid rid = elim (Option-cases (HashMap.get rid m.rooms)) [
      | inl gone ↦ rw (gone, get_room_info) v
      | inr (room, there) ↦
          let l = v.live rid room there in
          rw (there, get_room_info)
            (put_room-IsValid v there (get_info-IsLive l) (λ p. (get_info_seats l p).0))
    ]

    pub destroy_room-IsValid : (rid : RoomId) → IsValid (destroy_room m rid).0
    unfolding destroy_room in_room
    destroy_room-IsValid rid = elim (Option-cases (HashMap.get rid m.rooms)) [
      | inl gone ↦ rw (gone, destroy_room) v
      | inr (room, there) ↦
          rw (there, destroy_room)
            (record {
              live = λ r x h. v.live r x (ground (arith, HashMap.get-remove rid r m.rooms));
              seated = λ p r h. ground (
                arith,
                v.seated p r,
                HashMap.get-remove rid r m.rooms,
                HashMap.get-retain (λ _ r. if r == rid then false else true) p m.player_rooms,
              );
              indexed = λ p r h. ground (
                arith,
                v.indexed p r,
                HashMap.get-remove rid r m.rooms,
                HashMap.get-retain (λ _ r. if r == rid then false else true) p m.player_rooms,
              );
              fresh = λ r x h. ground (arith, HashMap.get-remove rid r m.rooms, v.fresh r x);
            })
    ]

    no_room : HashMap.get m.next_room_id m.rooms ≡ none
    no_room = elim (Option-cases (HashMap.get m.next_room_id m.rooms)) [
      | inl gone ↦ gone
      | inr (room, there) ↦ absurd (omega (arith, v.fresh m.next_room_id room there))
    ]

    -- Until the counter wraps.
    pub create_room-IsValid :
        (c : g.Config) → suc m.next_room_id < 2 ^ 64 → IsValid (create_room m c).0
    unfolding create_room in_room
    create_room-IsValid c h =
        let n = m.next_room_id in
        let room = Handle.spawn_room n g.room_config c in
        record {
          live = λ r x e. elim (HashMap.get-insert_inv n r room x m.rooms e) [
            | inl (same, new_one) ↦ rw (← same, ← new_one) (spawn_room-IsLive n g.room_config c)
            | inr (other, kept) ↦ v.live r x kept
          ];
          seated =
              λ p r e. ground (arith, v.seated p r e, HashMap.get-insert n r room m.rooms, no_room);
          indexed = λ p r e. ground (
            arith,
            v.indexed p r,
            HashMap.get-insert n r room m.rooms,
            spawn_room_empty g n g.room_config c p,
          );
          fresh = λ r x e. ground (arith, v.fresh r x, HashMap.get-insert n r room m.rooms);
        }
