-- ===== src/Room/Manager/Seating/Steps.antt =====
-- Each call of the manager against the specification of who sits where.
use archforge.Prelude.{
  ◌≡◌, refl, ap, subst, ◌∙◌, true, false, List, [], ◌∷◌, none, Result, ok, err, inl, inr, ◌==◌,
  if◌then◌else◌, nat_eq, arith, Option-cases, Bool-cases, Result-cases, ◌>>=◌,
}
use archforge.Prelude.HashMap
use archforge.Protocol.{PlayerId, RoomId}
use archforge.Room.State.{RoomError}
use archforge.Room.Logic.{GameLogic}
use archforge.Room.Actor.{PlayerSender}
use archforge.Room.Handle
use archforge.Room.Handle.{Room}
use archforge.Room.Manager
use archforge.Room.Manager.{
  RoomManager, put_room, seat, unseat, join_in, is_open, take_room, try_info, try_room, try_rooms,
  join_new, player_room,
}
use archforge.Room.Manager.History.{Call, step, run}
use archforge.Room.Manager.Seating.{
  Seating, Effect, stays, sits, leaves, empties, perform, IsEnabled, seated_at, when_ok, effect,
  Does, Seats, effects, AllEnabled, perform_all,
}
use archforge.Room.Manager.Seating.Walk.{perform_ext, try_rooms-Seats}

IsEnabled-ext :
    (x : Effect) (s s' : Seating) → ((q : PlayerId) → s' q ≡ s q) → IsEnabled x s' → IsEnabled x s
IsEnabled-ext stays s s' e h = tt
IsEnabled-ext (empties r) s s' e h = tt
IsEnabled-ext (sits p r) s s' e h = ground (arith, e p, h)
IsEnabled-ext (leaves p) s s' e h = ground (arith, e p, h)

seated_at-bind :
    (p : PlayerId) (r : RoomId) (a : Result RoomError (Unit {0}))
    → seated_at p (a >>= λ _. ok r) ≡ when_ok (sits p r) a
seated_at-bind p r (ok _) = refl
seated_at-bind p r (err e) = refl

module _ {g : GameLogic} where
  join_in-Does :
      (m : RoomManager g) (p : PlayerId) (r : RoomId) (s : PlayerSender) (room : Room g)
      → player_room m p ≡ none
      → Does m (join_in m p r s room).0 (when_ok (sits p r) (join_in m p r s room).1)
  unfolding join_in seat player_room perform
  join_in-Does m p r s room out = elim (Result-cases (Handle.join room p s).1) [
    | inl (u, good) ↦
        rw (good, seat) ((λ q. ground (arith, HashMap.get-insert p q r m.player_rooms)), out)
    | inr (e, bad) ↦ rw (bad, seat) ((λ q. refl), tt)
  ]

  join_room-Does :
      (m : RoomManager g) (p : PlayerId) (r : RoomId) (s : PlayerSender)
      → Does m (Manager.join_room m p r s).0 (when_ok (sits p r) (Manager.join_room m p r s).1)
  unfolding Manager.join_room perform player_room
  join_room-Does m p r s = elim (Option-cases (HashMap.get p m.player_rooms)) [
    | inr (current, there) ↦ elim (Bool-cases (current == r)) [
      | inl same ↦ rw (there, Manager.join_room, same) ((λ q. refl), tt)
      | inr other ↦ rw (there, Manager.join_room, other) ((λ q. refl), tt)
    ]
    | inl out ↦ elim (Option-cases (HashMap.get r m.rooms)) [
      | inl gone ↦ rw (out, Manager.join_room, gone) ((λ q. refl), tt)
      | inr (room, there) ↦ rw (out, Manager.join_room, there) (join_in-Does m p r s room out)
    ]
  ]

  leave_room-Does :
      (m : RoomManager g) (p : PlayerId)
      → Does m (Manager.leave_room m p).0 (when_ok (leaves p) (Manager.leave_room m p).1)
  unfolding Manager.leave_room perform player_room unseat
  leave_room-Does m p = elim (Option-cases (HashMap.get p m.player_rooms)) [
    | inl out ↦ rw (out, Manager.leave_room) ((λ q. refl), tt)
    | inr (r, there) ↦ elim (Option-cases (HashMap.get r m.rooms)) [
      | inl gone ↦
          rw (there, Manager.leave_room, gone)
            ((λ q. ground (arith, HashMap.get-remove p q m.player_rooms)), ground (arith, there))
      | inr (room, here) ↦ elim (Result-cases (Handle.leave_room room p).1) [
        | inl (u, good) ↦
            rw (there, Manager.leave_room, here, good, unseat)
              ((λ q. ground (arith, HashMap.get-remove p q m.player_rooms)), ground (arith, there))
        | inr (e, bad) ↦ rw (there, Manager.leave_room, here, bad, unseat) ((λ q. refl), tt)
      ]
    ]
  ]

  destroy_room-Does :
      (m : RoomManager g) (r : RoomId)
      → Does m (Manager.destroy_room m r).0 (when_ok (empties r) (Manager.destroy_room m r).1)
  unfolding Manager.destroy_room perform player_room
  destroy_room-Does m r = elim (Option-cases (HashMap.get r m.rooms)) [
    | inl gone ↦ rw (gone, Manager.destroy_room) ((λ q. refl), tt)
    | inr (room, here) ↦
        rw (here, Manager.destroy_room)
          ((λ q. HashMap.get-retain (λ _ x. if x == r then false else true) q m.player_rooms), tt)
  ]

  -- To make a room seats nobody.
  create_room-player_rooms :
      (m : RoomManager g) (c : g.Config) → (Manager.create_room m c).0.player_rooms ≡ m.player_rooms
  unfolding Manager.create_room
  create_room-player_rooms m c = refl

  join_new-Does :
      (m : RoomManager g) (p : PlayerId) (c : g.Config) (s : PlayerSender)
      → player_room m p ≡ none
      → Does m (join_new m p c s).0 (seated_at p (join_new m p c s).1)
  unfolding join_new player_room
  join_new-Does m p c s out =
      let (m', r) = Manager.create_room m c in
      let same = create_room-player_rooms m c in
      elim (Option-cases (HashMap.get r m'.rooms)) [
        | inl gone ↦ rw (gone, join_new) ((λ q. unfold perform in ap (HashMap.get q) same), tt)
        | inr (room, here) ↦
            let a = (join_in m' p r s room).1 in
            rw (here, join_new, seated_at-bind p r a)
              (subst
                (λ (t : HashMap.HashMap PlayerId RoomId).
                  ((q : PlayerId)
                    → HashMap.get q (join_in m' p r s room).0.player_rooms
                      ≡ perform (when_ok (sits p r) a) (λ q. HashMap.get q t) q)
                  × IsEnabled (when_ok (sits p r) a) (λ q. HashMap.get q t))
                same (join_in-Does m' p r s room (rw same out)))
      ]

  join_or_create-Does :
      (m : RoomManager g) (order : List RoomId) (p : PlayerId) (c : g.Config) (s : PlayerSender)
      → Does m
          (Manager.join_or_create m order p c s).0
          (seated_at p (Manager.join_or_create m order p c s).1)
  unfolding Manager.join_or_create player_room perform
  join_or_create-Does m order p c s = elim (Option-cases (HashMap.get p m.player_rooms)) [
    | inr (r, there) ↦ rw (there, Manager.join_or_create) ((λ q. refl), tt)
    | inl out ↦
        let (m', found, sends) = try_rooms m p s order in
        elim (Option-cases found) [
          | inr (r, e) ↦
              rw (out, Manager.join_or_create, e)
                (subst (λ f. Seats p m m' f) e (try_rooms-Seats m p s order), out)
          | inl e ↦
              let same = subst (λ f. Seats p m m' f) e (try_rooms-Seats m p s order) in
              let (does, free) = join_new-Does m' p c s (same p ∙ out) in
              let x = seated_at p (join_new m' p c s).1 in
              rw (out, Manager.join_or_create, e)
                (
                  (λ q. does q ∙ perform_ext x (player_room m) (player_room m') q (same q)),
                  IsEnabled-ext x (player_room m) (player_room m') same free,
                )
        ]
  ]

  list_rooms-player_rooms :
      (m : RoomManager g) (order : List RoomId)
      → (Manager.list_rooms m order).0.player_rooms ≡ m.player_rooms
  unfolding Manager.list_rooms Manager.get_room_info
  list_rooms-player_rooms m [] = refl
  list_rooms-player_rooms m (r ∷ rs) =
      list_rooms-player_rooms (Manager.get_room_info m r).0 rs ∙ ground arith

  -- A call that leaves the index alone seats nobody.
  still : (m m' : RoomManager g) → m'.player_rooms ≡ m.player_rooms → Does m m' stays
  unfolding perform player_room
  still m m' same = ((λ q. ap (HashMap.get q) same), tt)

  route_message-player_rooms :
      (m : RoomManager g) (p : PlayerId) (msg : g.ClientMessage)
      → (Manager.route_message m p msg).0.player_rooms ≡ m.player_rooms
  unfolding Manager.route_message
  route_message-player_rooms m p msg = ground arith

  get_room_info-player_rooms :
      (m : RoomManager g) (r : RoomId) → (Manager.get_room_info m r).0.player_rooms ≡ m.player_rooms
  unfolding Manager.get_room_info
  get_room_info-player_rooms m r = ground arith

  step-Does : (m : RoomManager g) (c : Call g) → Does m (step m c) (effect m c)
  unfolding step effect
  step-Does m (Call.join_room p r s) = join_room-Does m p r s
  step-Does m (Call.leave_room p) = leave_room-Does m p
  step-Does m (Call.destroy_room r) = destroy_room-Does m r
  step-Does m (Call.join_or_create order p c s) = join_or_create-Does m order p c s
  step-Does m (Call.create_room c) =
      still m (Manager.create_room m c).0 (create_room-player_rooms m c)
  step-Does m (Call.route_message p msg) =
      still m (Manager.route_message m p msg).0 (route_message-player_rooms m p msg)
  step-Does m (Call.get_room_info r) =
      still m (Manager.get_room_info m r).0 (get_room_info-player_rooms m r)
  step-Does m (Call.list_rooms order) =
      still m (Manager.list_rooms m order).0 (list_rooms-player_rooms m order)

  run-refines_at :
      (m : RoomManager g) (cs : List (Call g)) (s : Seating)
      → ((q : PlayerId) → player_room m q ≡ s q)
      → ((q : PlayerId) → player_room (run m cs) q ≡ perform_all (effects m cs) s q)
        × AllEnabled (effects m cs) s
  unfolding run effects perform_all AllEnabled
  run-refines_at m [] s same = (same, tt)
  run-refines_at m (c ∷ cs) s same =
      let x = effect m c in
      let (does, free) = step-Does m c in
      let (later, all) =
        run-refines_at (step m c) cs (perform x s)
          (λ q. does q ∙ perform_ext x s (player_room m) q (same q)) in
      (later, (IsEnabled-ext x s (player_room m) same free, all))

  -- The room manager implements the specification of who sits where: after any calls, a player sits
  -- where the effects of the calls, as their answers tell them, put the player; a call that answers
  -- with an error has no effect; and each effect was possible when its call was made: only who stood
  -- was seated, and only who sat left.
  pub run-Seating :
      (m : RoomManager g) (cs : List (Call g))
      → ((q : PlayerId) → player_room (run m cs) q ≡ perform_all (effects m cs) (player_room m) q)
        × AllEnabled (effects m cs) (player_room m)
  run-Seating m cs = run-refines_at m cs (player_room m) (λ q. refl)
