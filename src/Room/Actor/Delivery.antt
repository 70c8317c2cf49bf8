-- ===== src/Room/Actor/Delivery.antt =====
-- What a player's channel gets out of the sends of the actor.
use archforge.Prelude.{
  ◌≡◌, refl, Bool, true, not, ◌&&◌, List, [], ◌∷◌, ◌++◌, some, map, arith, ◌==◌, if◌then◌else◌,
  nat_eq, elem,
}
use archforge.Prelude.HashMap
use archforge.Prelude.HashSet
use archforge.Protocol.{PlayerId, Recipient, all, player, all_except}
use archforge.Room.Logic.{GameLogic}
use archforge.Room.Actor.{
  RoomActor, RoomOutbound, PlayerSender, Sends, send_to, send_each, send_each_except, dispatch_to,
  dispatch,
}
use archforge.Room.Actor.Invariant.{IsValid}

-- The messages sent on channel `c`, in order.
unfoldable pub received : {g : GameLogic} → PlayerSender → Sends g → List (RoomOutbound g)
received c [] = []
received c ((d, m) ∷ s) = if d == c then m ∷ received c s else received c s

-- Whether a message for `r` is meant for the player `p` of the room.
unfoldable pub is_for : PlayerId → Recipient → Bool
is_for p all = true
is_for p (player q) = q == p
is_for p (all_except q) = not (p == q)

unfoldable pub addressed : {M : Type 0} → PlayerId → List (Recipient × M) → List M
unfolding is_for
addressed p [] = []
addressed p ((r, m) ∷ msgs) = if is_for p r then m ∷ addressed p msgs else addressed p msgs

-- The player `p` listens on channel `c`, and nobody else does.
pub record Owns {g : GameLogic} (a : RoomActor g) (p : PlayerId) (c : PlayerSender) : Type 0 where
  pub channel : HashMap.get p a.senders ≡ some c
  pub only : (q : PlayerId) → HashMap.get q a.senders ≡ some c → q ≡ p

module _ {g : GameLogic} where
  pub received-append :
      (c : PlayerSender) (s t : Sends g) → received c (s ++ t) ≡ received c s ++ received c t
  unfolding received
  received-append c [] t = refl
  received-append c ((d, m) ∷ s) t = ground (arith, received-append c s t)

  module _ {a : RoomActor g} {p : PlayerId} {c : PlayerSender} (o : Owns a p c) where
    pub received-send_to :
        (q : PlayerId) (m : RoomOutbound g)
        → received c (send_to a q m) ≡ (if q == p then m ∷ [] else [])
    unfolding received send_to
    received-send_to q m = ground (arith, o.channel, o.only q)

    pub received-send_each :
        (ps : List PlayerId) (m : RoomOutbound g)
        → HashSet.Distinct ps
        → received c (send_each a ps m) ≡ (if elem p ps then m ∷ [] else [])
    unfolding send_each HashSet.Distinct elem received
    received-send_each [] m d = refl
    received-send_each (q ∷ ps) m d =
        rw (received-append c (send_to a q m) (send_each a ps m))
          (ground (arith, received-send_to q m, received-send_each ps m d.1))

    received-send_each_except :
        (x : PlayerId) (ps : List PlayerId) (m : RoomOutbound g)
        → HashSet.Distinct ps
        → received c (send_each_except a x ps m)
          ≡ (if elem p ps && not (p == x) then m ∷ [] else [])
    unfolding send_each_except HashSet.Distinct elem received
    received-send_each_except x [] m d = refl
    received-send_each_except x (q ∷ ps) m d =
        rw (received-append c (if q == x then [] else send_to a q m) (send_each_except a x ps m))
          (ground (arith, received-send_to q m, received-send_each_except x ps m d.1))

    received-dispatch_to :
        (r : Recipient) (m : RoomOutbound g)
        → IsValid a
        → received c (dispatch_to a r m) ≡ (if is_for p r then m ∷ [] else [])
    unfolding dispatch_to is_for HashSet.contains HashSet.IsDistinct
    received-dispatch_to all m v =
        ground (arith, received-send_each a.players.members m v.distinct, v.mapped p, o.channel)
    received-dispatch_to (player q) m v = received-send_to q m
    received-dispatch_to (all_except q) m v =
        ground
          (arith, received-send_each_except q a.players.members m v.distinct, v.mapped p, o.channel)

    -- A player of the room gets exactly the messages that are addressed to it, in the order of the
    -- game's list, whatever the order in which the set of players is walked.
    pub received-dispatch :
        (msgs : List (Recipient × g.ServerMessage))
        → IsValid a
        → received c (dispatch a msgs) ≡ map RoomOutbound.message (addressed p msgs)
    unfolding dispatch addressed received
    received-dispatch [] v = refl
    received-dispatch ((r, m) ∷ msgs) v =
        rw (received-append c (dispatch_to a r (RoomOutbound.message m)) (dispatch a msgs)) (
          ground
            (arith, received-dispatch_to r (RoomOutbound.message m) v, received-dispatch msgs v))
