-- ===== src/Room/Actor/Start.antt =====
-- `transition_to_starting` and the join that comes to it.
use archforge.Prelude.{◌≡◌, true, [], ◌∷◌, ok, arith, leb, nat_eq, suc}
use archforge.Prelude.Sort.{sort, sort-eq_of_perm}
use mathlib.Core.List.{Perm}
use archforge.Prelude.HashSet
use archforge.Protocol.{PlayerId}
use archforge.Room.Logic.{GameLogic}
use archforge.Room.Actor.{
  RoomActor, RoomOutbound, PlayerSender, transition_to_starting, auto_start, handle_join, send_each,
}
use archforge.Room.Actor.Invariant.{IsValid, handle_join-IsValid}
use archforge.Room.Actor.Delivery.{Owns, received, received-send_each}

module _ {g : GameLogic} where
  -- The game starts in the same state whatever order the set of players is walked in.
  pub transition_to_starting-order :
      (a b : RoomActor g)
      → Perm a.players.members b.players.members
      → a.game_config ≡ b.game_config
      → (transition_to_starting a).0.game_state ≡ (transition_to_starting b).0.game_state
  unfolding transition_to_starting
  transition_to_starting-order a b p e = cc (sort-eq_of_perm p)

  -- The sends of a join that is admitted: a snapshot of the new game for each player, or nothing.
  handle_join_sends :
      (a : RoomActor g) (pid : PlayerId) (s : PlayerSender)
      → (handle_join a pid s).1 ≡ ok tt
      → leb a.config.min_players (suc (HashSet.len a.players)) ≡ true
      → let b = (handle_join a pid s).0 in
        (handle_join a pid s).2
        ≡ send_each b b.players.members
            (RoomOutbound.state (g.init a.game_config (sort b.players.members)))
  unfolding handle_join auto_start
  handle_join_sends a pid s h m = ground (arith, HashSet.len-insert pid a.players)

  -- When a join starts the game, every player of the room, the one who joins included, gets the
  -- snapshot of the new game once, and nothing else.
  pub handle_join_snapshot :
      (a : RoomActor g) (pid : PlayerId) (s : PlayerSender) (q : PlayerId) (c : PlayerSender)
      → IsValid a
      → (handle_join a pid s).1 ≡ ok tt
      → leb a.config.min_players (suc (HashSet.len a.players)) ≡ true
      → Owns (handle_join a pid s).0 q c
      → let b = (handle_join a pid s).0 in
        received c (handle_join a pid s).2
        ≡ RoomOutbound.state (g.init a.game_config (sort b.players.members)) ∷ []
  unfolding HashSet.IsDistinct HashSet.contains
  handle_join_snapshot a pid s q c v h m o =
      let b = (handle_join a pid s).0 in
      let w = handle_join-IsValid a pid s v in
      rw (handle_join_sends a pid s h m) (
        ground (
          arith,
          received-send_each o b.players.members
              (RoomOutbound.state (g.init a.game_config (sort b.players.members))) w.distinct,
          w.mapped q,
          o.channel,
        ))
