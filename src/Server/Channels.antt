-- ===== src/Server/Channels.antt =====
-- The players' channels.
use archforge.Prelude.{
  ◌≡◌, refl, inl, inr, false, [], ◌∷◌, Option, none, some, arith, ◌==◌, Bool-cases,
}
use archforge.Room.Logic.{GameLogic}
use archforge.Room.Actor.{PlayerSender, RoomOutbound, Sends}
use archforge.Room.Actor.Delivery.{received}
use archforge.Server.{take_from}

module _ {g : GameLogic} where
  -- What a receive takes out of the channels.
  abbrev pub Received : PlayerSender → Sends g → Option (RoomOutbound g × Sends g) → Type 0
  Received c sends none = received c sends ≡ []
  Received c sends (some (m, rest)) =
      (received c sends ≡ m ∷ received c rest)
      × ((d : PlayerSender) → (d == c) ≡ false → received d rest ≡ received d sends)

  later_on :
      (c d : PlayerSender) (m : RoomOutbound g) (sends : Sends g)
      (next : Option (RoomOutbound g × Sends g))
      → (d == c) ≡ false
      → Received c sends next
      → Received c
          ((d, m) ∷ sends)
          (elim next [ none ↦ none | some (m', rest) ↦ some (m', (d, m) ∷ rest) ])
  unfolding received
  later_on c d m sends none other got = ground (arith, other, got)
  later_on c d m sends (some (m', rest)) other (first, same) =
      (ground (arith, other, first), λ k ne. ground (arith, same k ne))

  -- A receive on a channel takes the message that was sent to it first, and leaves what waits in the
  -- other channels as it is; it takes none only if none waits.
  pub take_from-Received :
      (c : PlayerSender) (sends : Sends g) → Received c sends (take_from c sends)
  unfolding take_from received
  take_from-Received c [] = refl
  take_from-Received c ((d, m) ∷ rest) = elim (Bool-cases (d == c)) [
    | inl same ↦ rw (same, take_from) (ground (arith, same), λ k ne. ground (arith, same, ne))
    | inr other ↦
        rw (other, take_from)
          (later_on c d m rest (take_from c rest) other (take_from-Received c rest))
  ]
