-- ===== src/Room/Manager/Seating/Walk.antt =====
-- The walk over the rooms against the specification of who sits where.
use archforge.Prelude.{
  ◌≡◌, refl, ap, subst, ◌∙◌, true, false, List, [], ◌∷◌, Result, ok, err, inl, inr, ◌==◌,
  if◌then◌else◌, nat_eq, arith, Option-cases, Bool-cases,
}
use archforge.Prelude.HashMap
use archforge.Protocol.{PlayerId, RoomId}
use archforge.Room.State.{RoomError}
use archforge.Room.Logic.{GameLogic}
use archforge.Room.Actor.{PlayerSender, RoomInfo, Sends}
use archforge.Room.Handle
use archforge.Room.Handle.{Room}
use archforge.Room.Manager.{
  RoomManager, put_room, is_open, take_room, try_info, try_room, try_rooms, player_room,
}
use archforge.Room.Manager.Seating.{
  Seating, Effect, stays, sits, leaves, empties, perform, found_at, Seats,
}

pub perform_ext :
    (x : Effect) (s s' : Seating) (q : PlayerId) → s' q ≡ s q → perform x s' q ≡ perform x s q
unfolding perform
perform_ext stays s s' q e = e
perform_ext (sits p r) s s' q e = ground (arith, e)
perform_ext (leaves p) s s' q e = ground (arith, e)
perform_ext (empties r) s s' q e = ap (HashMap.kept (λ _ x. if x == r then false else true) q) e

module _ {g : GameLogic} where
  take_room-Seats :
      (m : RoomManager g) (p : PlayerId) (r : RoomId) (answer : Result RoomError (Unit {0}))
      (sends : Sends g)
      → let (m', found, _) = take_room m p r answer sends in Seats p m m' found
  unfolding take_room player_room perform
  take_room-Seats m p r (ok _) sends q = HashMap.get-insert p q r m.player_rooms
  take_room-Seats m p r (err e) sends q = refl

  try_info-Seats :
      (m : RoomManager g) (p : PlayerId) (s : PlayerSender) (r : RoomId) (room : Room g)
      (answer : Result RoomError RoomInfo) (sends : Sends g)
      → let (m', found, _) = try_info m p s r room answer sends in Seats p m m' found
  unfolding try_info player_room perform
  try_info-Seats m p s r room (err e) sends = λ q. refl
  try_info-Seats m p s r room (ok i) sends = elim (Bool-cases (is_open i)) [
    | inr shut ↦ rw (shut, try_info) (λ q. refl)
    | inl free ↦
        let (room', answer, more) = Handle.join room p s in
        rw (free, try_info) (take_room-Seats (put_room m r room') p i.room_id answer _)
  ]

  try_room-Seats :
      (m : RoomManager g) (p : PlayerId) (s : PlayerSender) (r : RoomId)
      → let (m', found, _) = try_room m p s r in Seats p m m' found
  unfolding try_room player_room perform
  try_room-Seats m p s r = elim (Option-cases (HashMap.get r m.rooms)) [
    | inl gone ↦ rw (gone, try_room) (λ q. refl)
    | inr (room, here) ↦
        let (room', answer, sends) = Handle.get_info room in
        rw (here, try_room) (try_info-Seats (put_room m r room') p s r room' answer sends)
  ]

  pub try_rooms-Seats :
      (m : RoomManager g) (p : PlayerId) (s : PlayerSender) (order : List RoomId)
      → let (m', found, _) = try_rooms m p s order in Seats p m m' found
  unfolding try_rooms player_room perform
  try_rooms-Seats m p s [] = λ q. refl
  try_rooms-Seats m p s (r ∷ rs) =
      let (m', found, sends) = try_room m p s r in
      elim (Option-cases found) [
        | inr (joined, e) ↦
            rw (e, try_rooms) (subst (λ f. Seats p m m' f) e (try_room-Seats m p s r))
        | inl e ↦
            let one = subst (λ f. Seats p m m' f) e (try_room-Seats m p s r) in
            let (_, late, _) = try_rooms m' p s rs in
            rw (e, try_rooms)
              (λ q.
                try_rooms-Seats m' p s rs q
                ∙ perform_ext (found_at p late) (player_room m) (player_room m') q (one q))
      ]
