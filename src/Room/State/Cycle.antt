-- ===== src/Room/State/Cycle.antt =====
-- The order of the five states of the life cycle.
use archforge.Prelude.{ℕ, ◌+◌, ◌≡◌, ◌↔◌, true, arith}
use archforge.Room.State.{
  RoomState, waiting_for_players, starting, in_progress, finished, destroying, can_transition_to,
}

-- A state's place in the life cycle.
abbrev pub rank : RoomState → ℕ
rank waiting_for_players = 0
rank starting = 1
rank in_progress = 2
rank finished = 3
rank destroying = 4

-- A transition is allowed exactly to the state that stands one place further in the life cycle.
pub can_transition_to-rank :
    (s t : RoomState) → (can_transition_to s t ≡ true) ↔ (rank t ≡ rank s + 1)
unfolding can_transition_to
can_transition_to-rank s t = ground arith
