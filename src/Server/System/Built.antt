-- ===== src/Server/System/Built.antt =====
-- A server from its making on.
use archforge.Prelude.{
  ℕ, ◌+◌, ◌^◌, ◌<◌, ◌≡◌, refl, subst, String, [], Result, ok, arith, Result-cases, inl, inr,
}
use archforge.Prelude.HashMap
use archforge.Protocol.Codec.{Codec}
use archforge.Transport.{Connection}
use archforge.Session
use archforge.Session.{Session, Authenticator, SessionConfig, get}
use archforge.Session.Invariant.{new-IsValid}
use archforge.Room.Logic.{GameLogic}
use archforge.Room.Manager
use archforge.Room.Manager.Operations
use archforge.Server.{ServerState, ArcforgeServer, ArcforgeServerBuilder, build}
use archforge.Server.Guards.{Agree, count}
use archforge.Server.System.{System, guarding, Reach, AllFresh, IsSound, Reach-IsSound, Reach-Agree}

new-Agree : (config : SessionConfig) → Agree (Session.new config) []
unfolding Session.new get count
new-Agree config p = rw (HashMap.get-new {V = Session} p)

module _ {g : GameLogic} where
  -- What is asked of the state of a server that was built.
  abbrev Begun : ℕ → ServerState g → Type 0
  Begun next s = IsSound s × (s.rooms.next_room_id ≡ next) × Agree s.sessions []

  build-Begun :
      (b : ArcforgeServerBuilder) (bound : String → Result String (Unit {0})) (conn_id room_id : ℕ)
      (auth : Authenticator) (codec : Codec g) (s : ArcforgeServer g)
      → build b bound conn_id room_id auth codec ≡ ok s
      → Begun room_id s.state
  unfolding build
  build-Begun b bound conn_id room_id auth codec s h = elim (Result-cases (bound b.bind_addr)) [
    | inr (why, bad) ↦ absurd (ground (arith, h, bad))
    | inl (u, good) ↦
        let made : ServerState g = record {
          sessions = Session.new b.session_config;
          rooms = Manager.new room_id;
          auth = auth;
          codec = codec;
          next_channel = 0;
          inboxes = [];
        } in
        let e : made ≡ s.state = ground (arith, h, good) in
        let sound : IsSound made = record {
          sessions = new-IsValid b.session_config;
          rooms = Operations.new-IsValid room_id;
        } in
        subst (Begun room_id) e (sound, unfold Manager.new in refl, new-Agree b.session_config)
  ]

  -- A server that was built keeps its promises whatever its clients send and in whatever order the
  -- steps of its handlers and rooms come, as long as each new session's token was nobody's and there
  -- are ids for rooms left: a session's token leads to that session and to no other; a player is in the
  -- room that the index names and in no other; and a player's session is connected exactly as long as
  -- one guard for the player is alive or has its clean-up to come, and there are never two.
  pub built-IsSound :
      (c : Connection) (b : ArcforgeServerBuilder) (bound : String → Result String (Unit {0}))
      (conn_id room_id : ℕ) (auth : Authenticator) (codec : Codec g) (s : ArcforgeServer g) (n : ℕ)
      (t : System g) (path : Reach c n (guarding s.state []) t)
      → build b bound conn_id room_id auth codec ≡ ok s
      → AllFresh path
      → room_id + n < 2 ^ 64
      → IsSound t.server × Agree t.server.sessions t.guards
  built-IsSound c b bound conn_id room_id auth codec s n t path made fresh room =
      let (sound, id, agree) = build-Begun b bound conn_id room_id auth codec s made in
      (
        Reach-IsSound c n (guarding s.state []) t path fresh sound (omega (arith, id)),
        Reach-Agree c n (guarding s.state []) t path agree,
      )
