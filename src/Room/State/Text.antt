-- ===== src/Room/State/Text.antt =====
-- The texts of the room layer: `Display` of `RoomState` and of `RoomError`.
use Prim.Native.String.{String, ◌++◌ as ◌<>◌}
use archforge.Protocol.Text.{player_text, room_text}
use archforge.Room.State.{
  RoomState, waiting_for_players, starting, in_progress, finished, destroying, Reason,
  cannot_join_in, already_in, in_no_room, RoomError, not_found, room_full, already_in_room,
  not_in_room, invalid_state, unavailable,
}

unfoldable pub state_text : RoomState → String
state_text waiting_for_players = "WaitingForPlayers"
state_text starting = "Starting"
state_text in_progress = "InProgress"
state_text finished = "Finished"
state_text destroying = "Destroying"

-- What the `format!` of an `InvalidState` error makes.
unfoldable pub reason_text : Reason → String
unfolding state_text
reason_text (cannot_join_in s) = "cannot join room in state " <> state_text s
reason_text (already_in p r) = "player " <> player_text p <> " is already in room " <> room_text r
reason_text (in_no_room p) = "player " <> player_text p <> " is not in any room"

unfoldable pub error_text : RoomError → String
unfolding reason_text
error_text (not_found r) = "room " <> room_text r <> " not found"
error_text (room_full r) = "room " <> room_text r <> " is full"
error_text (already_in_room p r) = "player " <> player_text p <> " already in room " <> room_text r
error_text (not_in_room p r) = "player " <> player_text p <> " not in room " <> room_text r
error_text (invalid_state why) = "invalid room state for this operation: " <> reason_text why
error_text (unavailable r) = "room " <> room_text r <> " is unavailable"
