-- ===== src/Room/Manager/Invariant.antt =====
-- The agreement of the manager's index with the rooms, as an invariant.
use archforge.Prelude.{
  ◌<◌, ◌≡◌, Bool, true, false, none, some, inl, inr, ◌==◌, if◌then◌else◌, nat_eq, arith,
}
use archforge.Prelude.HashMap
use archforge.Protocol.{PlayerId, RoomId}
use archforge.Room.Logic.{GameLogic}
use archforge.Room.Handle.{Room}
use archforge.Room.Manager.{RoomManager, put_room}
use archforge.Room.Manager.Seats.{IsLive, has}

module _ {g : GameLogic} where
  -- Whether the room `rid` is there and has the player.
  unfoldable pub in_room : RoomManager g → PlayerId → RoomId → Bool
  in_room m p rid = elim (HashMap.get rid m.rooms) [ none ↦ false | some room ↦ has p room ]

  pub record IsValid (m : RoomManager g) : Type 0 where
    pub live :
        (rid : RoomId) (room : Room g) → HashMap.get rid m.rooms ≡ some room → IsLive rid room
    pub seated :
        (p : PlayerId) (rid : RoomId)
        → HashMap.get p m.player_rooms ≡ some rid
        → in_room m p rid ≡ true
    pub indexed :
        (p : PlayerId) (rid : RoomId)
        → in_room m p rid ≡ true
        → HashMap.get p m.player_rooms ≡ some rid
    pub fresh :
        (rid : RoomId) (room : Room g) → HashMap.get rid m.rooms ≡ some room → rid < m.next_room_id

  pub in_room-put_room :
      (m : RoomManager g) (p : PlayerId) (rid r : RoomId) (room : Room g)
      → in_room (put_room m rid room) p r ≡ (if rid == r then has p room else in_room m p r)
  unfolding in_room
  in_room-put_room m p rid r room = ground (arith, HashMap.get-insert rid r room m.rooms)

  module _ {m : RoomManager g} (v : IsValid m) {rid : RoomId} {old room : Room g}
      (there : HashMap.get rid m.rooms ≡ some old) (l : IsLive rid room) where
    put_room-IsLive :
        (r : RoomId) (x : Room g) → HashMap.get r (put_room m rid room).rooms ≡ some x → IsLive r x
    put_room-IsLive r x h = elim (HashMap.get-insert_inv rid r room x m.rooms h) [
      | inl (same, new_one) ↦ rw (← same, ← new_one) l
      | inr (other, kept) ↦ v.live r x kept
    ]

    put_room_fresh :
        (r : RoomId) (x : Room g)
        → HashMap.get r (put_room m rid room).rooms ≡ some x
        → r < m.next_room_id
    put_room_fresh r x h =
        ground (arith, HashMap.get-insert rid r room m.rooms, v.fresh r x, v.fresh rid old there)

    -- A room goes on with its players as they are.
    pub put_room-IsValid : ((p : PlayerId) → has p room ≡ has p old) → IsValid (put_room m rid room)
    unfolding in_room
    put_room-IsValid same = record {
      live = put_room-IsLive;
      seated = λ p r h.
          ground (arith, v.seated p r h, same p, there, HashMap.get-insert rid r room m.rooms);
      indexed = λ p r h.
          ground (arith, v.indexed p r, same p, there, HashMap.get-insert rid r room m.rooms);
      fresh = put_room_fresh;
    }

    -- A player who was in no room is in this one.
    pub seat-IsValid :
        (pid : PlayerId)
        → HashMap.get pid m.player_rooms ≡ none
        → ((p : PlayerId) → has p room ≡ (if pid == p then true else has p old))
        → IsValid
            (record (put_room m rid room) { player_rooms = HashMap.insert pid rid m.player_rooms })
    unfolding in_room
    seat-IsValid pid out seats = record {
      live = put_room-IsLive;
      seated = λ p r h. ground (
        arith,
        v.seated p r,
        seats p,
        there,
        HashMap.get-insert rid r room m.rooms,
        HashMap.get-insert pid p rid m.player_rooms,
      );
      indexed = λ p r h. ground (
        arith,
        v.indexed p r,
        seats p,
        there,
        HashMap.get-insert rid r room m.rooms,
        HashMap.get-insert pid p rid m.player_rooms,
      );
      fresh = put_room_fresh;
    }

    -- A player of this room is in none.
    pub unseat-IsValid :
        (pid : PlayerId)
        → HashMap.get pid m.player_rooms ≡ some rid
        → ((p : PlayerId) → has p room ≡ (if pid == p then false else has p old))
        → IsValid
            (record (put_room m rid room) { player_rooms = HashMap.remove pid m.player_rooms })
    unfolding in_room
    unseat-IsValid pid into seats = record {
      live = put_room-IsLive;
      seated = λ p r h. ground (
        arith,
        v.seated p r,
        seats p,
        there,
        HashMap.get-insert rid r room m.rooms,
        HashMap.get-remove pid p m.player_rooms,
      );
      indexed = λ p r h. ground (
        arith,
        v.indexed p r,
        seats p,
        there,
        HashMap.get-insert rid r room m.rooms,
        HashMap.get-remove pid p m.player_rooms,
      );
      fresh = put_room_fresh;
    }
