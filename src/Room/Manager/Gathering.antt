-- ===== src/Room/Manager/Gathering.antt =====
-- Newcomers who ask a new manager for any room, one after the other.
pub mod Waiting
pub mod Table
pub mod Starts
pub mod Told
use archforge.Prelude.{◌+◌, ◌≡◌, List, [], ◌∷◌, ◌++◌, Result, arith, length, map}
use mathlib.Core.List.{Perm, perm_middle}
use mathlib.Core.List.Perm
use archforge.Prelude.HashMap
use archforge.Protocol.{PlayerId, RoomId}
use archforge.Room.State.{RoomError}
use archforge.Room.Logic.{GameLogic}
use archforge.Room.Actor.{PlayerSender, Sends}
use archforge.Room.Manager.{RoomManager, join_or_create}

-- The players, the last who came first.
unfoldable pub come : List PlayerId → List (PlayerId × PlayerSender) → List PlayerId
come ids [] = ids
come ids ((p, s) ∷ ps) = come (p ∷ ids) ps

pub come-perm :
    (ids : List PlayerId) (ps : List (PlayerId × PlayerSender))
    → Perm (come ids ps) (map (λ e. e.0) ps ++ ids)
unfolding come
come-perm ids [] = Perm.refl ids
come-perm ids ((p, s) ∷ ps) =
    Perm.trans (come-perm (p ∷ ids) ps) (perm_middle (map (λ e. e.0) ps) ids)

pub length-come :
    (ids : List PlayerId) (ps : List (PlayerId × PlayerSender))
    → length (come ids ps) ≡ length ids + length ps
unfolding come
length-come ids [] = omega arith
length-come ids ((p, s) ∷ ps) = omega (arith, length-come (p ∷ ids) ps)

module _ {g : GameLogic} where
  -- The newcomers come one after the other; the rooms are visited in the order of the hash map.
  unfoldable pub gather :
      RoomManager g
      → g.Config
      → List (PlayerId × PlayerSender)
      → RoomManager g × List (Result RoomError RoomId) × Sends g
  gather m c [] = (m, [], [])
  gather m c ((p, s) ∷ ps) =
      let (m', r, sends) = join_or_create m (HashMap.keys m.rooms) p c s in
      let (m'', rs, more) = gather m' c ps in (m'', r ∷ rs, sends ++ more)
