-- ===== src/Room/Manager/Seating.antt =====
-- The room manager seen from far away: who sits where. The specification has four effects; the rooms,
-- their actors, their life cycle and the walk over the map are not in it.
pub mod Walk
pub mod Steps
use archforge.Prelude.{
  ℕ, ◌≡◌, refl, ◌∙◌, Bool, true, false, List, [], ◌∷◌, Option, none, some, Result, ok, err, is_some,
  inl, inr, ◌==◌, if◌then◌else◌, nat_eq, arith, Option-cases, Bool-cases, Result-cases, ◌>>=◌,
}
use archforge.Prelude.HashMap
use archforge.Protocol.{PlayerId, RoomId}
use archforge.Room.State.{RoomError}
use archforge.Room.Logic.{GameLogic}
use archforge.Room.Actor.{PlayerSender, RoomInfo, Sends}
use archforge.Room.Handle
use archforge.Room.Handle.{Room}
use archforge.Room.Manager
use archforge.Room.Manager.{
  RoomManager, put_room, seat, unseat, join_in, is_open, take_room, try_info, try_room, try_rooms,
  join_new, player_room,
}
use archforge.Room.Manager.History.{Call, step, run}

-- Where a player sits, if anywhere.
abbrev pub Seating : Type 0
Seating = PlayerId → Option RoomId

pub data Effect : Type 0 where
  stays : Effect
  sits : PlayerId → RoomId → Effect
  leaves : PlayerId → Effect
  empties : RoomId → Effect

-- The seating after an effect.
unfoldable pub perform : Effect → Seating → Seating
perform stays s q = s q
perform (sits p r) s q = if p == q then some r else s q
perform (leaves p) s q = if p == q then none else s q
perform (empties r) s q = HashMap.kept (λ _ x. if x == r then false else true) q (s q)

-- A player sits down only when standing, and leaves only a seat.
abbrev pub IsEnabled : Effect → Seating → Type 0
IsEnabled (sits p r) s = s p ≡ none
IsEnabled (leaves p) s = is_some (s p) ≡ true
IsEnabled _ s = Unit {0}

-- The effect of a call, by its answer.
abbrev pub seated_at : PlayerId → Result RoomError RoomId → Effect
seated_at p (ok r) = sits p r
seated_at p (err e) = stays

abbrev pub when_ok : Effect → Result RoomError (Unit {0}) → Effect
when_ok x (ok _) = x
when_ok x (err e) = stays

-- The room that the walk found, if it found one.
abbrev pub found_at : PlayerId → Option RoomId → Effect
found_at p (some r) = sits p r
found_at p none = stays

module _ {g : GameLogic} where
  unfoldable pub effect : RoomManager g → Call g → Effect
  effect m (Call.join_room p r s) = when_ok (sits p r) (Manager.join_room m p r s).1
  effect m (Call.leave_room p) = when_ok (leaves p) (Manager.leave_room m p).1
  effect m (Call.destroy_room r) = when_ok (empties r) (Manager.destroy_room m r).1
  effect m (Call.join_or_create order p c s) = seated_at p (Manager.join_or_create m order p c s).1
  effect m _ = stays

  -- A state of the manager does what the effect says, and the effect was possible.
  abbrev pub Does : RoomManager g → RoomManager g → Effect → Type 0
  Does m m' x =
      ((q : PlayerId) → player_room m' q ≡ perform x (player_room m) q)
      × IsEnabled x (player_room m)

  -- The seating before and after a walk over the rooms.
  abbrev pub Seats : PlayerId → RoomManager g → RoomManager g → Option RoomId → Type 0
  Seats p m m' found =
      (q : PlayerId) → player_room m' q ≡ perform (found_at p found) (player_room m) q

  -- The effects of some calls, each at the state in which its call is made.
  unfoldable pub effects : RoomManager g → List (Call g) → List Effect
  unfolding effect step
  effects m [] = []
  effects m (c ∷ cs) = effect m c ∷ effects (step m c) cs

-- All of them are possible, one after the other.
unfoldable pub AllEnabled : List Effect → Seating → Type 0
unfolding perform
AllEnabled [] s = Unit {0}
AllEnabled (x ∷ xs) s = IsEnabled x s × AllEnabled xs (perform x s)

unfoldable pub perform_all : List Effect → Seating → Seating
unfolding perform
perform_all [] s = s
perform_all (x ∷ xs) s = perform_all xs (perform x s)
