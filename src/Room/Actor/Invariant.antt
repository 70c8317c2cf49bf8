-- ===== src/Room/Actor/Invariant.antt =====
-- The invariant of a room between two commands.
use archforge.Prelude.{ℕ, ◌≤◌, ◌<◌, ◌≡◌, ◌⊎◌, true, false, Option, none, is_some, arith, nat_eq}
use archforge.Prelude.HashMap
use archforge.Prelude.HashSet
use archforge.Protocol.{PlayerId, RoomId}
use archforge.Room.State.{
  is_active, RoomConfig, RoomState, waiting_for_players, starting, in_progress, finished,
  destroying, is_joinable,
}
use archforge.Room.Logic.{GameLogic}
use archforge.Room.Actor.{
  RoomActor, RoomCommand, PlayerSender, auto_start, handle_join, handle_leave, handle_message,
  handle, initial, join, leave, get_state, shutdown,
}

-- A room that waits has too few players to start.
abbrev pub IsShort : RoomConfig → ℕ → Type 0
IsShort c n = (n < c.min_players) ⊎ (n ≡ 0)

-- The game is absent before the start, and present from then on.
abbrev pub InPhase {ℓ} : {S : Type ℓ} → RoomConfig → RoomState → Option S → ℕ → Type 0
InPhase c waiting_for_players game n = (is_some game ≡ false) × IsShort c n
InPhase c starting game n = ⊥
InPhase c in_progress game n = is_some game ≡ true
InPhase c finished game n = is_some game ≡ true
InPhase c destroying game n = Unit {0}

pub record IsValid {g : GameLogic} (a : RoomActor g) : Type 0 where
  pub capped : HashSet.len a.players ≤ a.config.max_players
  pub distinct : HashSet.IsDistinct a.players
  pub mapped : (p : PlayerId) → is_some (HashMap.get p a.senders) ≡ HashSet.contains p a.players
  pub phase : InPhase a.config a.state a.game_state (HashSet.len a.players)

module _ {g : GameLogic} where
  auto_start-capped :
      (a : RoomActor g)
      → HashSet.len a.players ≤ a.config.max_players
      → HashSet.len (auto_start a).0.players ≤ (auto_start a).0.config.max_players
  unfolding auto_start
  auto_start-capped a h = ground arith

  auto_start-phase :
      (a : RoomActor g)
      → is_joinable a.state ≡ true
      → a.game_state ≡ none
      → let b = (auto_start a).0 in InPhase b.config b.state b.game_state (HashSet.len b.players)
  unfolding auto_start is_joinable
  auto_start-phase a h e = ground arith

  pub handle_join-IsValid :
      (a : RoomActor g) (pid : PlayerId) (s : PlayerSender)
      → IsValid a
      → IsValid (handle_join a pid s).0
  unfolding handle_join auto_start is_joinable
  handle_join-IsValid a pid s v = record {
    capped = ground (arith, HashSet.len-insert pid a.players);
    distinct = ground (arith, HashSet.insert-IsDistinct pid a.players v.distinct);
    mapped = λ p. ground (
      arith,
      v.mapped p,
      HashMap.get-insert pid p s a.senders,
      HashSet.contains-insert pid p a.players,
    );
    phase = ground arith;
  }

  pub handle_leave-IsValid :
      (a : RoomActor g) (pid : PlayerId) → IsValid a → IsValid (handle_leave a pid).0
  unfolding handle_leave is_active
  handle_leave-IsValid a pid v = record {
    capped = ground (arith, HashSet.len-remove-le pid a.players);
    distinct = ground (arith, HashSet.remove-IsDistinct pid a.players v.distinct);
    mapped = λ p. ground (
      arith,
      v.mapped p,
      HashMap.get-remove pid p a.senders,
      HashSet.contains-remove pid p a.players,
    );
    phase = ground (arith, HashSet.len-remove-le pid a.players);
  }

  pub handle_message-IsValid :
      (a : RoomActor g) (pid : PlayerId) (msg : g.ClientMessage)
      → IsValid a
      → IsValid (handle_message a pid msg).0
  unfolding handle_message
  handle_message-IsValid a pid msg v = ground arith

  -- Every command keeps a room valid: at most `max_players` players, each of them once, a channel
  -- for exactly the players, no game and too few players while it waits, and a game afterwards.
  pub handle-IsValid : (a : RoomActor g) (c : RoomCommand g) → IsValid a → IsValid (handle a c).0
  unfolding handle
  handle-IsValid a (join pid s) v = handle_join-IsValid a pid s v
  handle-IsValid a (leave pid) v = handle_leave-IsValid a pid v
  handle-IsValid a (RoomCommand.message pid msg) v = handle_message-IsValid a pid msg v
  handle-IsValid a get_state v = v
  handle-IsValid a shutdown v = ground arith

  -- A new room is valid.
  pub initial-IsValid :
      (rid : RoomId) (c : RoomConfig) (gc : g.Config) → IsValid (initial {g = g} rid c gc)
  unfolding initial HashSet.len HashSet.new
  initial-IsValid rid c gc = record {
    capped = omega arith;
    distinct = HashSet.new-IsDistinct PlayerId;
    mapped = λ p. ground (arith, HashMap.get-new {V = ℕ} p, HashSet.contains-new p);
    phase = ground arith;
  }
