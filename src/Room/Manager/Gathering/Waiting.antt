-- ===== src/Room/Manager/Gathering/Waiting.antt =====
-- A room in which newcomers come together.
use archforge.Prelude.{
  suc, ◌<◌, ◌≤◌, ◌≡◌, refl, false, List, [], ◌∷◌, none, some, ok, if◌then◌else◌, nat_eq, arith, leb,
  elem, length,
}
use archforge.Prelude.HashSet
use archforge.Prelude.Sort.{sort}
use archforge.Protocol.{PlayerId, RoomId}
use archforge.Room.State.{is_joinable, in_progress, waiting_for_players}
use archforge.Room.Logic.{GameLogic}
use archforge.Room.Actor.{
  RoomActor, PlayerSender, handle_join, auto_start, transition_to_starting, initial,
}
use archforge.Room.Actor.Invariant.{IsValid, initial-IsValid, handle_join-IsValid}

module _ {g : GameLogic} where
  -- A room in which the players `ids` have come together. The game has started once there are enough.
  pub record Gathered (a : RoomActor g) (n : RoomId) (c : g.Config) (ids : List PlayerId)
      : Type 0 where
    pub valid : IsValid a
    pub room_id : a.room_id ≡ n
    pub config : a.config ≡ g.room_config
    pub game_config : a.game_config ≡ c
    pub players : a.players.members ≡ ids
    pub state :
        a.state
        ≡ (if leb g.room_config.min_players (length ids) then in_progress else waiting_for_players)
    pub game_state :
        a.game_state
        ≡ (if leb g.room_config.min_players (length ids) then some (g.init c (sort ids)) else none)

  pub initial-Gathered :
      (n : RoomId) (c : g.Config)
      → 0 < g.room_config.min_players
      → Gathered (initial n g.room_config c) n c []
  unfolding initial HashSet.new
  initial-Gathered n c h = record {
    valid = initial-IsValid n g.room_config c;
    room_id = refl;
    config = refl;
    game_config = refl;
    players = refl;
    state = ground (arith, h);
    game_state = ground (arith, h);
  }

  module _ {a : RoomActor g} {n : RoomId} {c : g.Config} {ids : List PlayerId}
      (v : Gathered a n c ids) (p : PlayerId) (s : PlayerSender) (out : elem p ids ≡ false)
      (few : length ids < g.room_config.min_players)
      (fits : g.room_config.min_players ≤ g.room_config.max_players) where
    pub handle_join-ok : (handle_join a p s).1 ≡ ok tt
    unfolding handle_join auto_start is_joinable HashSet.contains HashSet.len
    handle_join-ok = ground (arith, v.config, v.players, v.state, out, few, fits)

    pub handle_join-Gathered : Gathered (handle_join a p s).0 n c (p ∷ ids)
    unfolding handle_join auto_start is_joinable HashSet.contains HashSet.len HashSet.insert
        transition_to_starting
    handle_join-Gathered = record {
      valid = handle_join-IsValid a p s v.valid;
      room_id = ground (arith, v.room_id);
      config = ground (arith, v.config);
      game_config = ground (arith, v.game_config);
      players = ground (arith, v.config, v.players, v.state, out, few, fits);
      state = ground (arith, v.config, v.players, v.state, out, few, fits);
      game_state =
          ground (arith, v.config, v.players, v.state, v.game_state, v.game_config, out, few, fits);
    }

  -- A join before there are enough sends nothing.
  pub handle_join_before :
      {a : RoomActor g} {n : RoomId} {c : g.Config} {ids : List PlayerId}
      → Gathered a n c ids
      → (p : PlayerId) (s : PlayerSender) → suc (length ids) < g.room_config.min_players
      → (handle_join a p s).2 ≡ []
  unfolding handle_join auto_start HashSet.contains HashSet.len HashSet.insert
  handle_join_before v p s few = ground (arith, v.config, v.players, few)
