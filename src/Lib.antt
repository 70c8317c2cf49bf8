-- ===== src/Lib.antt =====
-- Arcforge, a multiplayer game server: its connections, rooms, sessions and tick scheduler.
--
-- A server keeps one `RoomManager` and one `SessionManager`, shared by the handlers of its connections. A
-- client connects over a WebSocket (crates/arcforge-transport), and its handler (crates/arcforge) runs the
-- handshake, lets the authenticator name the player, opens a session with a token
-- (crates/arcforge-session) under a guard, and then loops: it answers the client's messages, and forwards
-- what the player's room sends. A player joins a room through the manager, which sends commands to the
-- room's task through its channel (crates/arcforge-room); the room owns a game, a value of the `GameLogic`
-- interface, and sends the game's messages to the players' channels. The tick scheduler
-- (crates/arcforge-tick) tells a room when its next tick is due.
--
-- Prelude and its modules: the shared names; numbers, lists, results, and models of the standard
--   library's `HashMap` and `HashSet` as lists of entries; the order of the list stands for the order
--   in which the map is walked.
-- Protocol: the wire types of crates/arcforge-protocol/src/types.rs. Its modules: Text and Decimal
--   (numbers and ids as text), Codec (codec.rs and error.rs).
-- Transport: crates/arcforge-transport/src. A connection is a record of its operations; a WebSocket is
--   the list of the messages that its stream will yield. Transport.Frames: what `recv` makes of them.
-- Room.State: crates/arcforge-room/src/config.rs and error.rs. Its modules: Cycle (the life cycle), Text
--   (the texts of the errors).
-- Room.Logic: crates/arcforge-room/src/logic.rs, the trait as a record.
-- Room.Actor: the state and the command handlers of the actor of crates/arcforge-room/src/room.rs,
--   each as a function from the state to the state, the reply and what was sent. Its modules:
--   Invariant (well-formed rooms), Start (how a game starts), Lifecycle (the moves between states
--   and the answers), Delivery (who gets which message), Order (rooms that differ in the order of their
--   hash set and hash map, with Commands and Runs).
-- Room.Handle: `RoomHandle`, the channel of commands and the loop `run` of the same file. A caller
--   that waits for a reply lets the task run until it has come to the command; one that does not
--   leaves the command in the channel. Its modules: Mailbox (other moments at which the task may run, and
--   its end), Plays (a play of the game in a room against the game alone).
-- Room.Manager: crates/arcforge-room/src/manager.rs. Its modules: Seats (what a request does to the
--   membership of a room), Invariant, Operations, Matchmaking (the loops over the rooms), Openings
--   (which room `join_or_create` finds), Gathering (the first players of a manager, with Waiting, Table,
--   Starts and Told), History (sequences of calls), Tasks (a room's task going on), Seating (the
--   specification of who sits where, and that the manager implements it).
-- Session: crates/arcforge-session/src, all files. Its modules: Token, Invariant, Cleanup, Grace
--   (reconnection), Expiry (the sweeps), Ledger (a specification without the two maps, and in Steps that
--   the manager implements it).
-- Tick: crates/arcforge-tick/src/lib.rs. Its modules: Config, Deadline (the policies), Ticks (runs).
-- Server: crates/arcforge/src/server.rs and error.rs, the shared state, the builder and the accept loop
--   (Accepting). The players' channels are part of the state (Channels).
-- Server.Action: what the handlers of crates/arcforge/src/handler.rs are made of: actions on the handler's
--   variables and the shared state, which end in an error or not. Server.Handshake: `perform_handshake`,
--   with Answers and Admission. Server.Listing: the answer to `ListRooms`. Server.Handler: the handlers of
--   the messages and the loop, with Rooms (what a round does to the managers), Numbers (what it sends),
--   Reads (only the loop reads), Forwarding (messages of the room) and Joining. Server.Connection:
--   `handle_connection` and its guard, with Sessions, Numbering, Reading, Endings, Rejoin
--   and Return.
-- Server.System: all connections at once, as a relation of steps on the shared state and the guards that
--   are alive (Guards). Its modules: Paths (one connection as such steps), Built (from the builder on),
--   Playing (a message to the game, from the handler to the players' channels).
-- TicTacToe: examples/tic-tac-toe/src/main.rs, the rules of the example game, an instance of
--   Room.Logic. Its modules: Board (what a mark changes), Play (plays, and the game in a room),
--   Start (the join that starts a game), Auth (the authenticator, and the server of `main`).
-- Checks: concrete games, rooms, sessions, schedulers and connections, and each theorem applied to them.
--
-- Numbers. Ids and counts are natural numbers; the counters of room ids, of connection ids and of
-- envelopes, and the scheduler's counters wrap at 2 ^ 64, as they do in a release build. Instants and
-- durations are nanoseconds, and what the clock reads is an argument, as are the random token, the random
-- jitter, the order in which a hash map is walked, and which branch of `select!` is ready in a round of a
-- handler. The only fuel is that of printing a number: twenty digits, enough for a `u64`. Every other loop
-- is over a list: of frames, of rounds, of rooms, or of the commands in a channel.
--
-- Steps of different handlers follow each other in any order. Within a step a handler calls a manager at
-- most once, under its lock; to ask the rooms for `ListRooms` takes no lock, so that a question to a room
-- is a step of its own too. A guard's clean-up, which runs in a task, is a step after the handler's end.
--
-- Not modelled: logging; the lengths of the time-outs, whose firing is an argument; the bound of a room's
-- channel, which only makes a sender wait; panics of a game's methods; an authenticator that answers differently
-- from call to call: it is a function of the token; the derived serialization, which
-- `serde_json` runs and which is a parameter with its promise to read back what it writes; sockets, whose
-- behaviour is an argument; the texts of transport and session errors, which only go to the log.
pub mod Prelude
pub mod Protocol
pub mod Room
pub mod Session
pub mod Tick
pub mod Transport
pub mod Server
pub mod TicTacToe
pub mod Checks
