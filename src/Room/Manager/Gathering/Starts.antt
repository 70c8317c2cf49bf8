-- ===== src/Room/Manager/Gathering/Starts.antt =====
-- When enough newcomers have come, their game starts.
use archforge.Prelude.{
  ◌<◌, ◌≤◌, ◌+◌, ◌≡◌, refl, ◌∙◌, sym, subst, ap, leb, false, ◌&&◌, List, [], ◌∷◌, none, some, ok,
  if◌then◌else◌, nat_eq, arith, elem, length, map,
}
use mathlib.Core.List.{Perm, append-nil}
use archforge.Prelude.HashMap
use archforge.Prelude.HashSet
use archforge.Prelude.Sort.{sort, sort-eq_of_perm}
use archforge.Protocol.{PlayerId, RoomId}
use archforge.Room.State.{in_progress, waiting_for_players}
use archforge.Room.Logic.{GameLogic}
use archforge.Room.Actor.{RoomActor, PlayerSender, handle_join, initial}
use archforge.Room.Actor.Order.{elem-perm}
use archforge.Room.Handle.{Room}
use archforge.Room.Manager
use archforge.Room.Manager.{RoomManager, join_or_create, new}
use archforge.Room.Manager.Gathering.{gather, come, come-perm, length-come}
use archforge.Room.Manager.Gathering.Waiting.{Gathered, handle_join-Gathered, initial-Gathered}
use archforge.Room.Manager.Gathering.Table.{
  sitting, at_table, get-at_table, join_or_create-at_table, first_there,
}

module _ {g : GameLogic} where
  -- What the newcomers find.
  pub record Meets (n : RoomId) (c : g.Config) (ids : List PlayerId) (m : RoomManager g)
      : Type 0 where
    pub actor : RoomActor g
    pub gathered : Gathered actor n c ids
    pub rooms : m.rooms ≡ record { entries = (n, sitting n actor) ∷ [] }
    pub index :
        (q : PlayerId) → HashMap.get q m.player_rooms ≡ (if elem q ids then some n else none)

  module _ {n : RoomId} {c : g.Config} {ids : List PlayerId} {m : RoomManager g}
      (t : Meets n c ids m) (p : PlayerId) (s : PlayerSender) (out : elem p ids ≡ false)
      (few : length ids < g.room_config.min_players)
      (fits : g.room_config.min_players ≤ g.room_config.max_players) where
    pub found_there : join_or_create m (HashMap.keys m.rooms) p c s ≡ (
      at_table n (handle_join t.actor p s).0 (HashMap.insert p n m.player_rooms) m.next_room_id,
      ok n,
      (handle_join t.actor p s).2,
    )
    unfolding HashMap.keys
    found_there =
        ap (λ rooms. join_or_create (record m { rooms = rooms }) (HashMap.keys rooms) p c s) t.rooms
        ∙ join_or_create-at_table t.gathered p s out few fits m.player_rooms m.next_room_id
            (ground (arith, t.index p, out))

    pub join_or_create-Meets :
        let (m', r, sends) = join_or_create m (HashMap.keys m.rooms) p c s in
        Meets n c (p ∷ ids) m' × (r ≡ ok n)
    join_or_create-Meets = (
      subst (Meets n c (p ∷ ids)) (sym (ap (λ x. x.0) found_there)) (record {
        actor = (handle_join t.actor p s).0;
        gathered = handle_join-Gathered t.gathered p s out few fits;
        rooms = refl;
        index =
            λ q. unfold elem in ground (arith, HashMap.get-insert p q n m.player_rooms, t.index q);
      }),
      ap (λ x. x.1) found_there,
    )

  gather-Meets :
      (ps : List (PlayerId × PlayerSender)) {n : RoomId} {c : g.Config} {ids : List PlayerId}
      {m : RoomManager g}
      → Meets n c ids m
      → HashSet.Distinct (map (λ e. e.0) ps)
      → ((q : PlayerId) → (elem q ids && elem q (map (λ e. e.0) ps)) ≡ false)
      → length ids + length ps ≤ g.room_config.min_players
      → g.room_config.min_players ≤ g.room_config.max_players
      → let (m', rs, _) = gather m c ps in Meets n c (come ids ps) m' × (rs ≡ map (λ _. ok n) ps)
  unfolding gather come HashSet.Distinct
  gather-Meets [] t d apart few fits = (t, refl)
  gather-Meets ((p, s) ∷ ps) {ids = ids} t d apart few fits =
      let out : elem p ids ≡ false = unfold elem in ground (arith, apart p) in
      let (t', r) = join_or_create-Meets t p s out (omega (arith, few)) fits in
      let (t'', rs) =
        gather-Meets ps t' d.1
          (λ q. unfold elem in ground (arith, apart q, d.0, nat_eq.beq_iff p q))
          (omega (arith, few)) fits in
      (t'', λ i. r i ∷ rs i)

  -- The first newcomer gets a new room.
  module _ (n : RoomId) (c : g.Config) (p : PlayerId) (s : PlayerSender)
      (some_players : 0 < g.room_config.min_players)
      (fits : g.room_config.min_players ≤ g.room_config.max_players) where
    pub join_new-Meets :
        let (m', r, sends) = join_or_create (new {g = g} n) [] p c s in
        Meets n c (p ∷ []) m' × (r ≡ ok n)
    join_new-Meets = (
      subst (Meets n c (p ∷ [])) (sym (ap (λ x. x.0) (first_there n c p s some_players fits)))
          (record {
            actor = (handle_join (initial n g.room_config c) p s).0;
            gathered =
                handle_join-Gathered (initial-Gathered n c some_players) p s (unfold elem in refl)
                  some_players fits;
            rooms = refl;
            index = λ q.
                unfold elem in
                ground
                  (arith, HashMap.get-insert p q n HashMap.new, HashMap.get-new {V = RoomId} q);
          }),
      ap (λ x. x.1) (first_there n c p s some_players fits),
    )

  gather-new-Meets :
      (n : RoomId) (c : g.Config) (ps : List (PlayerId × PlayerSender))
      → HashSet.Distinct (map (λ e. e.0) ps)
      → 0 < length ps
      → length ps ≤ g.room_config.min_players
      → g.room_config.min_players ≤ g.room_config.max_players
      → let (m, rs, _) = gather (new {g = g} n) c ps in
        Meets n c (come [] ps) m × (rs ≡ map (λ _. ok n) ps)
  unfolding gather come HashSet.Distinct new HashMap.keys HashMap.new
  gather-new-Meets n c [] d some_players few fits = absurd (omega (arith, some_players))
  gather-new-Meets n c ((p, s) ∷ ps) d some_players few fits =
      let (t, r) = join_new-Meets n c p s (omega (arith, few)) fits in
      let (t', rs) =
        gather-Meets ps t d.1 (λ q. unfold elem in ground (arith, d.0, nat_eq.beq_iff p q))
          (omega (arith, few)) fits in
      (t', λ i. r i ∷ rs i)

  -- Newcomers who ask a new manager for any room, one after the other, all get the same room, as long
  -- as they are no more than the game wants to start, and it wants no more than it lets into a room:
  -- each is answered the id of the room, it is the only room, and just they are in it and in the
  -- index. The room waits while there are fewer than the game wants, and with the last of them its
  -- game starts, on the players in ascending order, whatever order they came in.
  pub gather-starts :
      (n : RoomId) (c : g.Config) (ps : List (PlayerId × PlayerSender))
      → HashSet.Distinct (map (λ e. e.0) ps)
      → 0 < length ps
      → length ps ≤ g.room_config.min_players
      → g.room_config.min_players ≤ g.room_config.max_players
      → let (m, rs, _) = gather (new {g = g} n) c ps in
        let ids = map (λ e. e.0) ps in
        let enough = leb g.room_config.min_players (length ps) in
        (rs ≡ map (λ _. ok n) ps)
        × (Manager.room_ids m ≡ n ∷ [])
        × ((q : PlayerId) → Manager.player_room m q ≡ (if elem q ids then some n else none))
        × ((room : Room g) × (HashMap.get n m.rooms ≡ some room)
            × (room.actor.state ≡ (if enough then in_progress else waiting_for_players))
            × (room.actor.game_state ≡ (if enough then some (g.init c (sort ids)) else none))
            × ((q : PlayerId) → HashSet.contains q room.actor.players ≡ elem q ids))
  unfolding Manager.room_ids Manager.player_room HashSet.contains HashMap.keys
  gather-starts n c ps d some_players few fits =
      let m = (gather (new {g = g} n) c ps).0 in
      let (t, rs) = gather-new-Meets n c ps d some_players few fits in
      let ids = map (λ e. e.0) ps in
      let same : Perm (come [] ps) ids =
        subst (Perm (come [] ps)) (append-nil ids) (come-perm [] ps) in
      let full : length (come [] ps) ≡ length ps = omega (arith, length-come [] ps) in
      (
        rs,
        ap HashMap.keys t.rooms,
        λ q. t.index q ∙ ap (λ b. if b then some n else none) (elem-perm q same),
        (
          sitting n t.actor,
          ap (HashMap.get n) t.rooms ∙ get-at_table n t.actor m.player_rooms 0,
          t.gathered.state
              ∙ ap
                  (λ k.
                    if leb g.room_config.min_players k then in_progress else waiting_for_players)
                  full,
          ground (arith, t.gathered.game_state, full, sort-eq_of_perm same),
          λ q. ap (elem q) t.gathered.players ∙ elem-perm q same,
        ),
      )
