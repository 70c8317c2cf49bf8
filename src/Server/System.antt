-- ===== src/Server/System.antt =====
-- All the connections of a server at once: each step is a step of one of the handlers, or of a room's
-- task, on the state that they share. The locks let the steps follow each other in any order.
pub mod Paths
pub mod Built
pub mod Playing
use archforge.Prelude.{
  ℕ, zero, suc, ◌+◌, ◌^◌, ◌≤◌, ◌<◌, ◌≡◌, inl, inr, ◌⊎◌, Bool, String, List, [], ◌++◌, none, some,
  arith, nat_eq, string_eq,
}
use archforge.Prelude.HashMap
use archforge.Protocol.{PlayerId, RoomId}
use archforge.Transport.{Connection}
use archforge.Session
use archforge.Session.{Instant}
use archforge.Session.Invariant.{IsValid as IsPaired, create-IsValid, disconnect-IsValid}
use archforge.Room.Logic.{GameLogic}
use archforge.Room.Manager
use archforge.Room.Manager.{put_room}
use archforge.Room.Manager.Invariant.{IsValid as IsSeated}
use archforge.Room.Manager.Tasks.{serve-IsValid}
use archforge.Room.Manager.History.{Call, step, step-IsValid}
use archforge.Room.Handle.{Room, serve}
use archforge.Server.{ServerState}
use archforge.Server.Action.{Handler}
use archforge.Server.Guards.{count, less, guarded, Agree, create-Agree, disconnect-Agree}
use archforge.Server.Handshake.{perform_handshake}
use archforge.Server.Handshake.Answers.{perform_handshake-server}
use archforge.Server.Handler.{Ready, turn}
use archforge.Server.Handler.Rooms.{Served, turn-Round}
use archforge.Server.Connection.{guard_drop, created}

-- The shared state, and the players whose guards are alive or have yet to clean up.
pub record System (g : GameLogic) : Type 0 where
  pub server : ServerState g
  pub guards : List PlayerId

module _ {g : GameLogic} where
  abbrev pub guarding : ServerState g → List PlayerId → System g
  guarding s l = record { server = s; guards = l }

  -- The state after the task of a room has taken one command.
  abbrev pub served_by : ServerState g → RoomId → Room g → ServerState g
  served_by s rid room =
      let (room', sends) = serve room in
      record s { rooms = put_room s.rooms rid room'; inboxes = s.inboxes ++ sends }

  -- The state after a room was asked for its information.
  abbrev pub asked_by : ServerState g → RoomId → ServerState g
  asked_by s rid =
      let (rooms, answer, sends) = Manager.get_room_info s.rooms rid in
      record s { rooms = rooms; inboxes = s.inboxes ++ sends }

  -- A step of a handler: its handshake, the creation of its session, a round of its loop, and the
  -- clean-up of its guard; a room's task that takes a command of its channel; and a handler that asks
  -- a room for its information, without the lock of the manager.
  pub data Step (c : Connection) : System g → System g → Type 0 where
    greeted :
        (h : Handler g c) (l : List PlayerId) (late : Bool) (now now' : ℕ)
        → Step c (guarding h.server l) (guarding (perform_handshake late now now' h).0.server l)
    opened :
        (h : Handler g c) (l : List PlayerId) (pid : PlayerId) (token : String)
        → Step c
            (guarding h.server l)
            (guarding (created pid token h).0.server (guarded pid (created pid token h).1 l))
    turned :
        (h : Handler g c) (l : List PlayerId) (pid : PlayerId) (r : Ready)
        → 0 < count pid l
        → Step c (guarding h.server l) (guarding (turn pid r h).0.server l)
    closed :
        (h : Handler g c) (l : List PlayerId) (pid : PlayerId) (at : Instant)
        → 0 < count pid l
        → Step c (guarding h.server l) (guarding (guard_drop pid at h).server (less pid l))
    worked :
        (s : ServerState g) (l : List PlayerId) (rid : RoomId) (room : Room g)
        → HashMap.get rid s.rooms.rooms ≡ some room
        → Step c (guarding s l) (guarding (served_by s rid room) l)
    asked :
        (s : ServerState g) (l : List PlayerId) (rid : RoomId)
        → Step c (guarding s l) (guarding (asked_by s rid) l)

  -- So many steps lead from a state to another.
  pub data Reach (c : Connection) : ℕ → System g → System g → Type 0 where
    start : (s : System g) → Reach c zero s s
    after : (n : ℕ) (s t u : System g) → Step c s t → Reach c n t u → Reach c (suc n) s u

  -- The random token of a new session is nobody's yet.
  abbrev pub DrewFresh : {c : Connection} {s t : System g} → Step c s t → Type 0
  DrewFresh (opened h l pid token) = HashMap.get token h.server.sessions.tokens ≡ none
  DrewFresh _ = Unit {0}

  abbrev pub AllFresh : {c : Connection} {n : ℕ} {s t : System g} → Reach c n s t → Type 0
  AllFresh (start s) = Unit {0}
  AllFresh (after n s t u one rest) = DrewFresh one × AllFresh rest

  -- Both managers are valid.
  pub record IsSound (s : ServerState g) : Type 0 where
    pub sessions : IsPaired s.sessions
    pub rooms : IsSeated s.rooms

  -- The id that the next room gets has grown by at most one, and both managers are valid.
  abbrev Sound : ServerState g → ServerState g → Type 0
  Sound s t = IsSound t × (t.rooms.next_room_id ≤ suc s.rooms.next_room_id)

  served :
      (s t : ServerState g)
      → IsSound s
      → suc s.rooms.next_room_id < 2 ^ 64
      → t.sessions ≡ s.sessions
      → Served s.rooms t.rooms
      → Sound s t
  served s t v room same (inl still) =
      (record { sessions = rw same v.sessions; rooms = rw still v.rooms }, rw still (omega arith))
  served s t v room same (inr (call, did)) =
      let (w, next) = step-IsValid s.rooms call v.rooms room in
      (record { sessions = rw same v.sessions; rooms = rw did w }, rw did next)

  step-Sound :
      (c : Connection) (s t : System g) (one : Step c s t)
      → DrewFresh one
      → IsSound s.server
      → suc s.server.rooms.next_room_id < 2 ^ 64
      → Sound s.server t.server
  unfolding created guard_drop step
  step-Sound c _ _ (greeted h l late now now') fresh v room =
      rw (perform_handshake-server now now' h late) (v, omega arith)
  step-Sound c _ _ (opened h l pid token) fresh v room = (
    record { sessions = create-IsValid v.sessions pid token fresh; rooms = v.rooms },
    omega arith,
  )
  step-Sound c _ _ (turned h l pid r alive) fresh v room =
      let (same, rooms) = turn-Round h pid r in
      served h.server (turn pid r h).0.server v room same rooms
  step-Sound c _ _ (closed h l pid at alive) fresh v room =
      (record { sessions = disconnect-IsValid v.sessions pid at; rooms = v.rooms }, omega arith)
  step-Sound c _ _ (worked s l rid x there) fresh v room = (
    record { sessions = v.sessions; rooms = serve-IsValid s.rooms rid x v.rooms there },
    omega arith,
  )
  step-Sound c _ _ (asked s l rid) fresh v room =
      let (w, next) = step-IsValid s.rooms (Call.get_room_info rid) v.rooms room in
      (record { sessions = v.sessions; rooms = w }, next)

  -- From a sound state, any steps of any handlers and of any rooms' tasks, in any order, lead to a
  -- sound state, as long as each new session's token was nobody's and there are ids for rooms left: a
  -- session's token leads to that session and to no other, and a player is in the room that the index
  -- names and in no other.
  pub Reach-IsSound :
      (c : Connection) (n : ℕ) (s t : System g) (path : Reach c n s t)
      → AllFresh path
      → IsSound s.server
      → s.server.rooms.next_room_id + n < 2 ^ 64
      → IsSound t.server
  Reach-IsSound c _ s _ (start _) fresh v room = v
  Reach-IsSound c _ s u (after n _ t _ one rest) (new, fresh) v room =
      let (w, next) = step-Sound c s t one new v (omega arith) in
      Reach-IsSound c n t u rest fresh w (omega (arith, next))

  step-Agree :
      (c : Connection) (s t : System g)
      → Step c s t
      → Agree s.server.sessions s.guards
      → Agree t.server.sessions t.guards
  unfolding created guard_drop
  step-Agree c _ _ (greeted h l late now now') v = rw (perform_handshake-server now now' h late) v
  step-Agree c _ _ (opened h l pid token) v = create-Agree h.server.sessions l pid token v
  step-Agree c _ _ (turned h l pid r alive) v = rw (turn-Round h pid r).0 v
  step-Agree c _ _ (closed h l pid at alive) v = disconnect-Agree h.server.sessions l pid at v
  step-Agree c _ _ (worked s l rid x there) v = v
  step-Agree c _ _ (asked s l rid) v = v

  -- Whatever the order of the steps, a player's session is connected exactly as long as there is one
  -- guard for the player, alive or with its clean-up to come, and a player never has two: no second
  -- handler serves a player, and no guard of an earlier connection disconnects a later one. It holds
  -- if it held at the start, as it does with no session and no guard.
  pub Reach-Agree :
      (c : Connection) (n : ℕ) (s t : System g)
      → Reach c n s t
      → Agree s.server.sessions s.guards
      → Agree t.server.sessions t.guards
  Reach-Agree c _ s _ (start _) v = v
  Reach-Agree c _ s u (after n _ t _ one rest) v = Reach-Agree c n t u rest (step-Agree c s t one v)
