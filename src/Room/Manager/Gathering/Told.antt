-- ===== src/Room/Manager/Gathering/Told.antt =====
-- What newcomers are sent when their game starts.
use archforge.Prelude.{
  ℕ, suc, ◌<◌, ◌≤◌, ◌+◌, ◌%◌, ◌^◌, ◌≡◌, refl, ◌∙◌, sym, subst, ap, false, ◌&&◌, List, [], ◌∷◌, ◌++◌,
  some, Result, ok, nat_eq, arith, elem, length, map,
}
use mathlib.Core.Option
use mathlib.Core.List.{Perm, append-nil}
use archforge.Prelude.HashMap
use archforge.Prelude.HashSet
use archforge.Prelude.Sort.{sort, sort-eq_of_perm}
use archforge.Protocol.{PlayerId, RoomId}
use archforge.Room.State.{RoomError}
use archforge.Room.Logic.{GameLogic}
use archforge.Room.Actor.{RoomActor, RoomOutbound, PlayerSender, Sends, handle_join}
use archforge.Room.Actor.Delivery.{Owns, received}
use archforge.Room.Actor.Start.{handle_join_snapshot}
use archforge.Room.Handle.{Room}
use archforge.Room.Manager.{RoomManager, join_or_create, new}
use archforge.Room.Manager.Gathering.{gather, come, come-perm}
use archforge.Room.Manager.Gathering.Starts.{
  Meets, found_there, join_or_create-Meets, join_new-Meets,
}
use archforge.Room.Manager.Gathering.Waiting.{
  Gathered, handle_join-Gathered, handle_join-ok, handle_join_before, initial-Gathered,
}
use archforge.Room.Manager.Gathering.Table.{sitting, at_table, get-at_table, first_there}

module _ {g : GameLogic} where
  -- The join that makes up the players.
  module _ {a : RoomActor g} {n : RoomId} {c : g.Config} {ids : List PlayerId}
      (v : Gathered a n c ids) (p : PlayerId) (s : PlayerSender) (out : elem p ids ≡ false)
      (last : suc (length ids) ≡ g.room_config.min_players)
      (fits : g.room_config.min_players ≤ g.room_config.max_players) where
    last-told :
        (x : RoomManager g × Result RoomError RoomId × Sends g)
        (index : HashMap.HashMap PlayerId RoomId) (k : ℕ)
        → let (a', _, sends) = handle_join a p s in
          x ≡ (at_table n a' index k, ok n, sends)
          → (room : Room g) (q : PlayerId) (w : PlayerSender) → HashMap.get n x.0.rooms ≡ some room
          → Owns room.actor q w
          → received w x.2 ≡ RoomOutbound.state (g.init c (sort (p ∷ ids))) ∷ []
    unfolding HashSet.len
    last-told x index k found room q w there owns =
        let few : length ids < g.room_config.min_players = omega (arith, last) in
        let after = handle_join-Gathered v p s out few fits in
        let b = (handle_join a p s).0 in
        let same : room ≡ sitting n b =
          ap (λ o. Option.get_or o room)
            (sym there ∙ ap (λ y. HashMap.get n y.0.rooms) found ∙ get-at_table n b index k) in
        ap (λ y. received w y.2) found
        ∙ handle_join_snapshot a p s q w v.valid (handle_join-ok v p s out few fits)
            (ground (arith, v.config, v.players, last))
            (subst (λ (r : Room g). Owns r.actor q w) same owns)
        ∙ (λ i. RoomOutbound.state (g.init (v.game_config i) (sort (after.players i))) ∷ [])

  gather-told :
      (ps : List (PlayerId × PlayerSender)) {n : RoomId} {c : g.Config} {ids : List PlayerId}
      {m : RoomManager g}
      → Meets n c ids m
      → HashSet.Distinct (map (λ e. e.0) ps)
      → ((q : PlayerId) → (elem q ids && elem q (map (λ e. e.0) ps)) ≡ false)
      → 0 < length ps
      → length ids + length ps ≡ g.room_config.min_players
      → g.room_config.min_players ≤ g.room_config.max_players
      → (room : Room g) (q : PlayerId) (w : PlayerSender)
      → HashMap.get n (gather m c ps).0.rooms ≡ some room
      → Owns room.actor q w
      → received w (gather m c ps).2 ≡ RoomOutbound.state (g.init c (sort (come ids ps))) ∷ []
  unfolding gather come HashSet.Distinct
  gather-told [] t d apart more all fits room q w there owns = absurd (omega (arith, more))
  gather-told ((p, s) ∷ []) {n = n} {c = c} {ids = ids} {m = m} t d apart more all fits room q w
        there owns =
      let out : elem p ids ≡ false = unfold elem in ground (arith, apart p) in
      ap (received w) (append-nil (join_or_create m (HashMap.keys m.rooms) p c s).2)
      ∙ last-told t.gathered p s out (omega (arith, all)) fits
          (join_or_create m (HashMap.keys m.rooms) p c s) (HashMap.insert p n m.player_rooms)
          m.next_room_id (found_there t p s out (omega (arith, all)) fits) room q w there owns
  gather-told ((p, s) ∷ x ∷ ps) {c = c} {ids = ids} {m = m} t d apart more all fits room q w there
        owns =
      let out : elem p ids ≡ false = unfold elem in ground (arith, apart p) in
      let few : length ids < g.room_config.min_players = omega (arith, all) in
      let (t', _) = join_or_create-Meets t p s out few fits in
      let silent : (join_or_create m (HashMap.keys m.rooms) p c s).2 ≡ [] =
        ap (λ r. r.2) (found_there t p s out few fits)
        ∙ handle_join_before t.gathered p s (omega (arith, all)) in
      ap
        (λ sends.
          received w
            (sends ++ (gather (join_or_create m (HashMap.keys m.rooms) p c s).0 c (x ∷ ps)).2))
        silent
      ∙ gather-told (x ∷ ps) t' d.1
          (λ r. unfold elem in ground (arith, apart r, d.0, nat_eq.beq_iff p r)) (omega arith)
          (omega (arith, all)) fits room q w there owns

  -- When as many newcomers as the game wants to start have asked a new manager for any room, one
  -- after the other, each player of the room who listens on a channel of their own finds there the
  -- snapshot of the new game, and nothing else, as long as the game wants no more players than it
  -- lets into a room.
  pub gather_snapshot :
      (n : RoomId) (c : g.Config) (ps : List (PlayerId × PlayerSender))
      → HashSet.Distinct (map (λ e. e.0) ps)
      → 0 < length ps
      → length ps ≡ g.room_config.min_players
      → g.room_config.min_players ≤ g.room_config.max_players
      → (room : Room g) (q : PlayerId) (w : PlayerSender)
      → HashMap.get n (gather (new {g = g} n) c ps).0.rooms ≡ some room
      → Owns room.actor q w
      → received w (gather (new {g = g} n) c ps).2
        ≡ RoomOutbound.state (g.init c (sort (map (λ e. e.0) ps))) ∷ []
  unfolding gather come HashSet.Distinct new HashMap.keys HashMap.new
  gather_snapshot n c [] d some_players enough fits room q w there owns =
      absurd (omega (arith, some_players))
  gather_snapshot n c ((p, s) ∷ []) d some_players enough fits room q w there owns =
      ap (received w) (append-nil (join_or_create (new {g = g} n) [] p c s).2)
      ∙ last-told (initial-Gathered n c (omega (arith, enough))) p s (unfold elem in refl)
          (omega (arith, enough)) fits (join_or_create (new {g = g} n) [] p c s)
          (HashMap.insert p n HashMap.new) ((n + 1) % 2 ^ 64)
          (first_there n c p s (omega (arith, enough)) fits) room q w there owns
  gather_snapshot n c ((p, s) ∷ x ∷ ps) d some_players enough fits room q w there owns =
      let positive : 0 < g.room_config.min_players = omega (arith, enough) in
      let ids = map (λ e. e.0) ((p, s) ∷ x ∷ ps) in
      let one = join_or_create (new {g = g} n) [] p c s in
      let silent : one.2 ≡ [] =
        ap (λ r. r.2) (first_there n c p s positive fits)
        ∙ handle_join_before (initial-Gathered n c positive) p s (omega (arith, enough)) in
      let same : Perm (come (p ∷ []) (x ∷ ps)) ids =
        subst (Perm (come (p ∷ []) (x ∷ ps))) (append-nil ids) (come-perm [] ((p, s) ∷ x ∷ ps)) in
      let (t, _) = join_new-Meets n c p s positive fits in
      ap (λ sends. received w (sends ++ (gather one.0 c (x ∷ ps)).2)) silent
      ∙ gather-told (x ∷ ps) t d.1 (λ r. unfold elem in ground (arith, d.0, nat_eq.beq_iff p r))
          (omega arith) (omega (arith, enough)) fits room q w there owns
      ∙ ap (λ l. RoomOutbound.state (g.init c l) ∷ []) (sort-eq_of_perm same)
