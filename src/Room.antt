-- ===== src/Room.antt =====
-- The room layer, crates/arcforge-room/src: the life cycle of a room, the interface to the game,
-- the room's actor, the handle to its mailbox, and the manager of all rooms.
pub mod State
pub mod Logic
pub mod Actor
pub mod Handle
pub mod Manager
