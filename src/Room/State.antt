-- ===== src/Room/State.antt =====
-- config.rs and error.rs: the configuration of a room, its life cycle, and the errors. An
-- `InvalidState` error carries what its text is formatted from.
pub mod Cycle
pub mod Text
use archforge.Prelude.{ℕ, ◌*◌, ◌^◌, Bool, true, false, Option, none, some}
use archforge.Protocol.{PlayerId, RoomId}

-- A `Duration`, in nanoseconds.
abbrev pub Duration : Type 0
Duration = ℕ

-- `Duration::from_secs`.
abbrev pub from_secs : ℕ → Duration
from_secs s = s * 10 ^ 9

pub record RoomConfig : Type 0 where
  pub min_players : ℕ
  pub max_players : ℕ
  pub tick_rate : ℕ
  pub reconnect_grace : Duration
  pub allow_spectators : Bool
  pub max_spectators : ℕ

abbrev pub default_config : RoomConfig
default_config = record {
  min_players = 2;
  max_players = 8;
  tick_rate = 0;
  reconnect_grace = from_secs 30;
  allow_spectators = false;
  max_spectators = 0;
}

pub data RoomState : Type 0 where
  waiting_for_players starting in_progress finished destroying : RoomState

unfoldable pub is_joinable : RoomState → Bool
is_joinable waiting_for_players = true
is_joinable _ = false

unfoldable pub is_active : RoomState → Bool
is_active starting = true
is_active in_progress = true
is_active _ = false

unfoldable pub next : RoomState → Option RoomState
next waiting_for_players = some starting
next starting = some in_progress
next in_progress = some finished
next finished = some destroying
next destroying = none

-- The derived `==`.
unfoldable pub eq : RoomState → RoomState → Bool
eq waiting_for_players waiting_for_players = true
eq starting starting = true
eq in_progress in_progress = true
eq finished finished = true
eq destroying destroying = true
eq _ _ = false

-- `next` compared with `Some(target)`.
unfoldable pub is_some_of : Option RoomState → RoomState → Bool
unfolding eq
is_some_of none t = false
is_some_of (some s) t = eq s t

unfoldable pub can_transition_to : RoomState → RoomState → Bool
unfolding next is_some_of
can_transition_to s target = is_some_of (next s) target

-- What the text of an `InvalidState` error says.
pub data Reason : Type 0 where
  cannot_join_in : RoomState → Reason
  already_in : PlayerId → RoomId → Reason
  in_no_room : PlayerId → Reason

pub data RoomError : Type 0 where
  not_found : RoomId → RoomError
  room_full : RoomId → RoomError
  already_in_room : PlayerId → RoomId → RoomError
  not_in_room : PlayerId → RoomId → RoomError
  invalid_state : Reason → RoomError
  unavailable : RoomId → RoomError
