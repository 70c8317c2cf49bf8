-- ===== src/Room/Manager/Gathering/Table.antt =====
-- A manager whose only room is one in which newcomers come together.
use archforge.Prelude.{
  ℕ, ◌^◌, ◌<◌, ◌≤◌, ◌+◌, ◌%◌, ◌≡◌, refl, ◌∙◌, ap, true, false, List, [], ◌∷◌, ◌++◌, ◌>>=◌, Option,
  none, some, Result, ok, err, nat_eq, arith, elem, length,
}
use archforge.Prelude.HashMap
use archforge.Prelude.HashSet
use archforge.Protocol.{PlayerId, RoomId}
use archforge.Room.State.{is_joinable, RoomError, not_found}
use archforge.Room.Logic.{GameLogic}
use archforge.Room.Actor.{RoomActor, PlayerSender, Sends, handle, handle_join, info, initial}
use archforge.Room.Manager.Gathering.Waiting.{Gathered, initial-Gathered, handle_join-ok}
use archforge.Room.Handle
use archforge.Room.Handle.{Room, spawn_room}
use archforge.Room.Manager.{
  RoomManager, try_room, try_rooms, join_new, join_in, seat, create_room, join_or_create, take_room,
  is_open, new,
}

module _ {g : GameLogic} where
  -- A room whose task waits for the next command.
  abbrev pub sitting : RoomId → RoomActor g → Room g
  sitting n a = record { room_id = n; actor = a; mailbox = []; stopped = false }

  -- The manager, when it has one room.
  abbrev pub at_table : RoomId → RoomActor g → HashMap.HashMap PlayerId RoomId → ℕ → RoomManager g
  at_table n a index k = record {
    rooms = record { entries = (n, sitting n a) ∷ [] };
    player_rooms = index;
    next_room_id = k;
  }

  pub get-at_table :
      (n : RoomId) (a : RoomActor g) (index : HashMap.HashMap PlayerId RoomId) (k : ℕ)
      → HashMap.get n (at_table n a index k).rooms ≡ some (sitting n a)
  unfolding HashMap.get HashMap.find
  get-at_table n a index k = ground arith

  put_again :
      (n : RoomId) (a b : RoomActor g)
      → ◌≡◌ {A = HashMap.HashMap RoomId (Room g)}
          (HashMap.insert n (sitting n b) (record { entries = (n, sitting n a) ∷ [] }))
          (record { entries = (n, sitting n b) ∷ [] })
  unfolding HashMap.insert HashMap.put
  put_again n a b = ground arith

  put_twice :
      (n : RoomId) (a b : RoomActor g)
      → ◌≡◌ {A = HashMap.HashMap RoomId (Room g)}
          (HashMap.insert n
            (sitting n b)
            (HashMap.insert n (sitting n a) (record { entries = (n, sitting n a) ∷ [] })))
          (record { entries = (n, sitting n b) ∷ [] })
  unfolding HashMap.insert HashMap.put
  put_twice n a b = ground arith

  join-sitting :
      (n : RoomId) (a : RoomActor g) (p : PlayerId) (s : PlayerSender)
      → let (a', r, sends) = handle_join a p s in
        Handle.join (sitting n a) p s ≡ (sitting n a', r, sends)
  unfolding Handle.join handle
  join-sitting n a p s = refl

  get_info-sitting :
      (n : RoomId) (a : RoomActor g)
      → Handle.get_info (sitting n a) ≡ (sitting n a, ok (info a), [])
  unfolding Handle.get_info handle
  get_info-sitting n a = refl

  module _ {a : RoomActor g} {n : RoomId} {c : g.Config} {ids : List PlayerId}
      (v : Gathered a n c ids) (p : PlayerId) (s : PlayerSender) (out : elem p ids ≡ false)
      (few : length ids < g.room_config.min_players)
      (fits : g.room_config.min_players ≤ g.room_config.max_players) where
    is_open-info : is_open (info a) ≡ true
    unfolding is_open info is_joinable HashSet.len
    is_open-info = ground (arith, v.config, v.players, v.state, few, fits)

    try_room-at_table :
        (index : HashMap.HashMap PlayerId RoomId) (k : ℕ)
        → let (a', _, sends) = handle_join a p s in
          try_room (at_table n a index k) p s n
          ≡ (at_table n a' (HashMap.insert p n index) k, some n, sends)
    unfolding try_room info take_room
    try_room-at_table index k =
        rw
          (
            get-at_table n a index k,
            try_room,
            get_info-sitting n a,
            is_open-info,
            join-sitting n a p s,
            handle_join-ok v p s out few fits,
          )
          (λ i. (
            record {
              rooms = put_twice n a (handle_join a p s).0 i;
              player_rooms = HashMap.insert p (v.room_id i) index;
              next_room_id = k;
            },
            some (v.room_id i),
            (handle_join a p s).2,
          ))

    join_in-at_table :
        (index : HashMap.HashMap PlayerId RoomId) (k : ℕ)
        → let (a', _, sends) = handle_join a p s in
          join_in (at_table n a index k) p n s (sitting n a)
          ≡ (at_table n a' (HashMap.insert p n index) k, ok tt, sends)
    unfolding join_in seat
    join_in-at_table index k =
        rw (join-sitting n a p s, handle_join-ok v p s out few fits)
          (λ i. (
            record {
              rooms = put_again n a (handle_join a p s).0 i;
              player_rooms = HashMap.insert p n index;
              next_room_id = k;
            },
            ok tt,
            (handle_join a p s).2,
          ))

    try_rooms-at_table :
        (index : HashMap.HashMap PlayerId RoomId) (k : ℕ)
        → let (a', _, sends) = handle_join a p s in
          try_rooms (at_table n a index k) p s (n ∷ [])
          ≡ (at_table n a' (HashMap.insert p n index) k, some n, sends)
    unfolding try_rooms
    try_rooms-at_table index k =
        ap
          (λ (t : RoomManager g × Option RoomId × Sends g). elim t.1 [
            | some joined ↦ (t.0, some joined, t.2)
            | none ↦ (t.0, none, t.2 ++ [])
          ])
          (try_room-at_table index k)

    pub join_or_create-at_table :
        (index : HashMap.HashMap PlayerId RoomId) (k : ℕ)
        → HashMap.get p index ≡ none
        → let (a', _, sends) = handle_join a p s in
          join_or_create (at_table n a index k) (n ∷ []) p c s
          ≡ (at_table n a' (HashMap.insert p n index) k, ok n, sends)
    unfolding join_or_create
    join_or_create-at_table index k h =
        let found = try_rooms-at_table index k in
        rw (h, join_or_create, found)
          (ap (λ (t : RoomManager g × Option RoomId × Sends g). (t.0, ok n, t.2)) found)

  -- The first newcomer gets a new room.
  module _ (n : RoomId) (c : g.Config) (p : PlayerId) (s : PlayerSender)
      (some_players : 0 < g.room_config.min_players)
      (fits : g.room_config.min_players ≤ g.room_config.max_players) where
    made :
        create_room (new {g = g} n) c
        ≡ (at_table n (initial n g.room_config c) HashMap.new ((n + 1) % 2 ^ 64), n)
    unfolding create_room new spawn_room HashMap.insert HashMap.new HashMap.put
    made = refl

    there_new : join_new (new {g = g} n) p c s ≡ (
      at_table n
          (handle_join (initial n g.room_config c) p s).0
          (HashMap.insert p n HashMap.new)
          ((n + 1) % 2 ^ 64),
      ok n,
      (handle_join (initial n g.room_config c) p s).2,
    )
    unfolding join_new
    there_new =
        let k = (n + 1) % 2 ^ 64 in
        let a = initial n g.room_config c in
        let joined =
          join_in-at_table (initial-Gathered n c some_players) p s (unfold elem in refl)
            some_players fits HashMap.new k in
        ap
          (λ (x : RoomManager g × RoomId). elim (HashMap.get x.1 x.0.rooms) [
            | none ↦ (x.0, err (not_found x.1), [])
            | some room ↦
                let (m', answer, sends) = join_in x.0 p x.1 s room in
                (m', answer >>= (λ _. ok x.1), sends)
          ])
          made
        ∙ rw (get-at_table n a HashMap.new k) (
            ap
              (λ (t : RoomManager g × Result RoomError (Unit {0}) × Sends g).
                (t.0, t.1 >>= (λ _. ok n), t.2))
              joined)

    pub first_there : join_or_create (new {g = g} n) [] p c s ≡ (
      at_table n
          (handle_join (initial n g.room_config c) p s).0
          (HashMap.insert p n HashMap.new)
          ((n + 1) % 2 ^ 64),
      ok n,
      (handle_join (initial n g.room_config c) p s).2,
    )
    unfolding join_or_create try_rooms new HashMap.get HashMap.find HashMap.new
    first_there = there_new
