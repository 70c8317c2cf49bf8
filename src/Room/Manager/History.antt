-- ===== src/Room/Manager/History.antt =====
-- Sequences of calls of the manager.
use archforge.Prelude.{
  suc, ◌+◌, ◌^◌, ◌≤◌, ◌<◌, ◌≡◌, refl, ◌∙◌, true, List, [], ◌∷◌, none, some, inl, inr, nat_eq, arith,
  Option-cases, length,
}
use archforge.Prelude.HashMap
use archforge.Protocol.{PlayerId, RoomId}
use archforge.Room.Logic.{GameLogic}
use archforge.Room.Actor.{PlayerSender}
use archforge.Room.Handle
use archforge.Room.Handle.{Room}
use archforge.Room.Manager
use archforge.Room.Manager.{RoomManager, new, seat, unseat}
use archforge.Room.Manager.Invariant.{IsValid, in_room}
use archforge.Room.Manager.Operations.{
  new-IsValid, join_in-IsValid, join_room-IsValid, leave_room-IsValid, route_message-IsValid,
  get_room_info-IsValid, destroy_room-IsValid, create_room-IsValid,
}
use archforge.Room.Manager.Matchmaking.{list_rooms-IsValid, try_rooms-Tried}

pub data Call (g : GameLogic) : Type 0 where
  create_room : g.Config → Call g
  join_room : PlayerId → RoomId → PlayerSender → Call g
  leave_room : PlayerId → Call g
  route_message : PlayerId → g.ClientMessage → Call g
  get_room_info : RoomId → Call g
  destroy_room : RoomId → Call g
  list_rooms : List RoomId → Call g
  join_or_create : List RoomId → PlayerId → g.Config → PlayerSender → Call g

module _ {g : GameLogic} where
  unfoldable pub step : RoomManager g → Call g → RoomManager g
  step m (create_room c) = (Manager.create_room m c).0
  step m (join_room pid rid s) = (Manager.join_room m pid rid s).0
  step m (leave_room pid) = (Manager.leave_room m pid).0
  step m (route_message pid msg) = (Manager.route_message m pid msg).0
  step m (get_room_info rid) = (Manager.get_room_info m rid).0
  step m (destroy_room rid) = (Manager.destroy_room m rid).0
  step m (list_rooms order) = (Manager.list_rooms m order).0
  step m (join_or_create order pid c s) = (Manager.join_or_create m order pid c s).0

  unfoldable pub run : RoomManager g → List (Call g) → RoomManager g
  run m [] = m
  run m (c ∷ cs) = run (step m c) cs

  join_in-next :
      (m : RoomManager g) (pid : PlayerId) (rid : RoomId) (s : PlayerSender) (room : Room g)
      → (Manager.join_in m pid rid s room).0.next_room_id ≡ m.next_room_id
  unfolding Manager.join_in
  join_in-next m pid rid s room = ground arith

  join_room-next :
      (m : RoomManager g) (pid : PlayerId) (rid : RoomId) (s : PlayerSender)
      → (Manager.join_room m pid rid s).0.next_room_id ≡ m.next_room_id
  unfolding Manager.join_room
  join_room-next m pid rid s = ground arith

  pub leave_room-next :
      (m : RoomManager g) (pid : PlayerId)
      → (Manager.leave_room m pid).0.next_room_id ≡ m.next_room_id
  unfolding Manager.leave_room
  leave_room-next m pid = ground arith

  route_message-next :
      (m : RoomManager g) (pid : PlayerId) (msg : g.ClientMessage)
      → (Manager.route_message m pid msg).0.next_room_id ≡ m.next_room_id
  unfolding Manager.route_message
  route_message-next m pid msg = ground arith

  get_room_info-next :
      (m : RoomManager g) (rid : RoomId)
      → (Manager.get_room_info m rid).0.next_room_id ≡ m.next_room_id
  unfolding Manager.get_room_info
  get_room_info-next m rid = ground arith

  destroy_room-next :
      (m : RoomManager g) (rid : RoomId)
      → (Manager.destroy_room m rid).0.next_room_id ≡ m.next_room_id
  unfolding Manager.destroy_room
  destroy_room-next m rid = ground arith

  list_rooms-next :
      (m : RoomManager g) (order : List RoomId)
      → (Manager.list_rooms m order).0.next_room_id ≡ m.next_room_id
  unfolding Manager.list_rooms
  list_rooms-next m [] = refl
  list_rooms-next m (rid ∷ rids) =
      list_rooms-next (Manager.get_room_info m rid).0 rids ∙ get_room_info-next m rid

  pub join_new-IsValid :
      (m : RoomManager g) (pid : PlayerId) (c : g.Config) (s : PlayerSender)
      → IsValid m
      → HashMap.get pid m.player_rooms ≡ none
      → suc m.next_room_id < 2 ^ 64
      → let m' = (Manager.join_new m pid c s).0 in
        IsValid m' × (m'.next_room_id ≡ suc m.next_room_id)
  unfolding Manager.join_new
  join_new-IsValid m pid c s v out h =
      let n = m.next_room_id in
      let room = Handle.spawn_room n g.room_config c in
      let made = (Manager.create_room m c).0 in
      let there : HashMap.get n made.rooms ≡ some room =
        unfold Manager.create_room in ground (arith, HashMap.get-insert n n room m.rooms) in
      let w = create_room-IsValid v c h in
      rw (there, Manager.join_new)
        (
          join_in-IsValid w n there pid s (unfold Manager.create_room in out),
          join_in-next made pid n s room ∙ unfold Manager.create_room in omega arith,
        )

  join_or_create-IsValid :
      (m : RoomManager g) (order : List RoomId) (pid : PlayerId) (c : g.Config) (s : PlayerSender)
      → IsValid m
      → suc m.next_room_id < 2 ^ 64
      → let m' = (Manager.join_or_create m order pid c s).0 in
        IsValid m' × (m'.next_room_id ≤ suc m.next_room_id)
  unfolding Manager.join_or_create
  join_or_create-IsValid m order pid c s v h =
      elim (Option-cases (HashMap.get pid m.player_rooms)) [
        | inr (current, e) ↦ rw (e, Manager.join_or_create) (v, omega arith)
        | inl out ↦
            let (m', found, sends) = Manager.try_rooms m pid s order in
            let (w, into, kept) = try_rooms-Tried pid s m order v out in
            elim (Option-cases found) [
              | inr (rid, e) ↦ rw (out, Manager.join_or_create, e) (w, omega (arith, kept))
              | inl e ↦
                  let (x, next) = join_new-IsValid m' pid c s w (into ∙ e) (omega (arith, kept)) in
                  rw (out, Manager.join_or_create, e) (x, omega (arith, kept, next))
            ]
      ]

  -- Each call keeps the manager valid and uses up at most one id, until the counter wraps.
  pub step-IsValid :
      (m : RoomManager g) (c : Call g)
      → IsValid m
      → suc m.next_room_id < 2 ^ 64
      → IsValid (step m c) × ((step m c).next_room_id ≤ suc m.next_room_id)
  unfolding step
  step-IsValid m (create_room c) v h =
      (create_room-IsValid v c h, unfold Manager.create_room in omega arith)
  step-IsValid m (join_room pid rid s) v h =
      (join_room-IsValid v pid rid s, omega (arith, join_room-next m pid rid s))
  step-IsValid m (leave_room pid) v h =
      (leave_room-IsValid v pid, omega (arith, leave_room-next m pid))
  step-IsValid m (route_message pid msg) v h =
      (route_message-IsValid v pid msg, omega (arith, route_message-next m pid msg))
  step-IsValid m (get_room_info rid) v h =
      (get_room_info-IsValid v rid, omega (arith, get_room_info-next m rid))
  step-IsValid m (destroy_room rid) v h =
      (destroy_room-IsValid v rid, omega (arith, destroy_room-next m rid))
  step-IsValid m (list_rooms order) v h =
      (list_rooms-IsValid m order v, omega (arith, list_rooms-next m order))
  step-IsValid m (join_or_create order pid c s) v h = join_or_create-IsValid m order pid c s v h

  run-IsValid :
      (m : RoomManager g) (cs : List (Call g))
      → IsValid m
      → m.next_room_id + length cs < 2 ^ 64
      → IsValid (run m cs)
  unfolding run
  run-IsValid m [] v h = v
  run-IsValid m (c ∷ cs) v h =
      let (w, next) = step-IsValid m c v (omega arith) in
      run-IsValid (step m c) cs w (omega (arith, next))

  -- After any calls on a new manager, as many as there are ids, no player is in two rooms, and the
  -- index `player_rooms` names the room that has the player: if `r` and `q` both have `p`, they are
  -- the same room, and it is the one that the index gives.
  pub run-one_room :
      (cs : List (Call g)) (p : PlayerId) (r q : RoomId)
      → suc (length cs) < 2 ^ 64
      → in_room (run (new 1) cs) p r ≡ true
      → in_room (run (new 1) cs) p q ≡ true
      → (r ≡ q) × (Manager.player_room (run (new 1) cs) p ≡ some r)
  unfolding Manager.player_room
  run-one_room cs p r q h i j =
      let v = run-IsValid (new 1) cs (new-IsValid 1) (unfold new in omega arith) in
      (ground (arith, v.indexed p r i, v.indexed p q j), v.indexed p r i)
