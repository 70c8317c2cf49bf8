-- ===== src/Checks.antt =====
-- Tests, and the theorems at concrete inputs.
mod Game
mod Gathering
mod Wire
mod Servers
mod Connections
mod Playing
mod Rooms
mod Managers
mod Sessions
mod Ticks
mod Plays
