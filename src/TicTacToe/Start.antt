-- ===== src/TicTacToe/Start.antt =====
-- The start of the game in a room: the join that makes up the two players.
use archforge.Prelude.{
  ℕ, ◌≤◌, ◌≡◌, List, [], ◌∷◌, some, ok, arith, length, leb, Bool-cases, inl, inr,
}
use archforge.Prelude.Sort.{sort, place}
use archforge.Prelude.HashSet
use archforge.Protocol.{PlayerId}
use archforge.Room.Actor.{RoomActor, PlayerSender, handle_join}
use archforge.Room.Actor.Invariant.{IsValid}
use archforge.Room.Actor.Lifecycle.{handle_join-start}
use archforge.TicTacToe.{init, tic_tac_toe}

sort-two : (xs : List ℕ) → length xs ≡ 2 → (p : ℕ) × (q : ℕ) × (sort xs ≡ p ∷ q ∷ []) × (p ≤ q)
unfolding sort place
sort-two [] h = absurd (omega arith)
sort-two (a ∷ []) h = absurd (omega arith)
sort-two (a ∷ b ∷ []) h = elim (Bool-cases (leb a b)) [
  | inl e ↦ (a, b, ground arith, ground arith)
  | inr e ↦ (b, a, ground arith, ground arith)
]
sort-two (a ∷ b ∷ c ∷ xs) h = absurd (omega arith)

-- A player who joins one other player in a room with the configuration of the game starts it: X is
-- the player with the lower id, O the other one, and there is nobody else.
pub handle_join-init :
    (a : RoomActor tic_tac_toe) (pid : PlayerId) (s : PlayerSender)
    → IsValid a
    → a.config ≡ tic_tac_toe.room_config
    → HashSet.len a.players ≡ 1
    → (handle_join {g = tic_tac_toe} a pid s).1 ≡ ok tt
    → let b = (handle_join {g = tic_tac_toe} a pid s).0 in
      (p : PlayerId) × (q : PlayerId) × (b.game_state ≡ some (init tt (p ∷ q ∷ [])))
      × (sort b.players.members ≡ p ∷ q ∷ [])
      × (p ≤ q)
unfolding HashSet.len
handle_join-init a pid s v config one joined =
    let (size, started) = handle_join-start {g = tic_tac_toe} a pid s v joined in
    let b = (handle_join {g = tic_tac_toe} a pid s).0 in
    let (p, q, e, h) = sort-two b.players.members (unfold HashSet.len in omega (arith, size)) in
    (p, q, ground (arith, started, e, config), e, h)
