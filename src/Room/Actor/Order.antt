-- ===== src/Room/Actor/Order.antt =====
-- The room actor under another order of its hash set and its hash map.
pub mod Commands
pub mod Runs
use archforge.Prelude.{
  ℕ, suc, ◌≡◌, refl, ◌∙◌, sym, ap, Bool, true, false, List, [], ◌∷◌, Option, none, some, ok, arith,
  length, elem, leb, if◌then◌else◌, nat_eq, ◌==◌, inl, inr, Bool-cases,
}
use archforge.Prelude.HashMap
use archforge.Prelude.HashSet
use archforge.Prelude.HashSet.{HashSet}
use mathlib.Core.Logic.{∥∥₁_elim}
use mathlib.Core.List.{Perm, Permᴰ, Perm-prop}
use mathlib.Core.List.Perm
use archforge.Prelude.Sort.{sort, place, sort-eq_of_perm}
use archforge.Protocol.{PlayerId, RoomId}
use archforge.Room.State.{RoomConfig, RoomState, is_joinable, is_active}
use archforge.Room.Logic.{GameLogic}
use archforge.Room.Actor.{
  RoomActor, RoomCommand, PlayerSender, Sends, Reply, handle, handle_join, handle_leave,
  handle_message, auto_start, info, transition_to_starting,
}
use archforge.Room.Actor.Invariant.{IsValid}
use archforge.Room.Actor.Delivery.{Owns, received, received-dispatch}

-- What a sort keeps.
elem-place : (q x : ℕ) (xs : List ℕ) → elem q (place x xs) ≡ elem q (x ∷ xs)
unfolding elem place
elem-place q x [] = refl
elem-place q x (y ∷ ys) = ground (arith, elem-place q x ys)

elem-sort : (q : ℕ) (xs : List ℕ) → elem q (sort xs) ≡ elem q xs
unfolding elem sort
elem-sort q [] = refl
elem-sort q (x ∷ xs) = ground (arith, elem-place q x (sort xs), elem-sort q xs)

length-place : (x : ℕ) (xs : List ℕ) → length (place x xs) ≡ suc (length xs)
unfolding place
length-place x [] = refl
length-place x (y ∷ ys) = ground (arith, length-place x ys)

length-sort : (xs : List ℕ) → length (sort xs) ≡ length xs
unfolding sort
length-sort [] = refl
length-sort (x ∷ xs) = ground (arith, length-place x (sort xs), length-sort xs)

kept_swap :
    (x y : ℕ) (b d : Bool) (rest : List ℕ)
    → Perm
        (if b then if d then rest else y ∷ rest else x ∷ (if d then rest else y ∷ rest))
        (if d then if b then rest else x ∷ rest else y ∷ (if b then rest else x ∷ rest))
kept_swap x y true true rest = Perm.refl rest
kept_swap x y true false rest = Perm.refl (y ∷ rest)
kept_swap x y false true rest = Perm.refl (x ∷ rest)
kept_swap x y false false rest = Perm.swap y x rest

drop_all-Permᴰ :
    (q : ℕ) {xs ys : List ℕ} → Permᴰ xs ys → Perm (HashSet.drop_all q xs) (HashSet.drop_all q ys)
unfolding HashSet.drop_all
drop_all-Permᴰ q Permᴰ.nil = Perm.nil
drop_all-Permᴰ q (Permᴰ.cons {a = x} {l₁ = xs} {l₂ = ys} e p) =
    let tail = drop_all-Permᴰ q p in rw (← e) (ground (arith, tail, Perm.cons x tail))
drop_all-Permᴰ q (Permᴰ.swap {a = x} {b = y} {l = xs} e f) =
    rw (← e, ← f) (kept_swap x y (x == q) (y == q) (HashSet.drop_all q xs))
drop_all-Permᴰ q (Permᴰ.trans p r) = Perm.trans (drop_all-Permᴰ q p) (drop_all-Permᴰ q r)

drop_all-perm :
    (q : ℕ) {xs ys : List ℕ} → Perm xs ys → Perm (HashSet.drop_all q xs) (HashSet.drop_all q ys)
drop_all-perm q p = ∥∥₁_elim p Perm-prop (drop_all-Permᴰ q)

pub elem-perm : (q : ℕ) {xs ys : List ℕ} → Perm xs ys → elem q xs ≡ elem q ys
elem-perm q {xs} {ys} p = sym (elem-sort q xs) ∙ ap (elem q) (sort-eq_of_perm p) ∙ elem-sort q ys

pub length-perm : {xs ys : List ℕ} → Perm xs ys → length xs ≡ length ys
length-perm {xs} {ys} p = sym (length-sort xs) ∙ ap length (sort-eq_of_perm p) ∙ length-sort ys

-- The same room, whatever the order of its players and of their channels.
pub record Same {g : GameLogic} (a b : RoomActor g) : Type 0 where
  pub room_id : a.room_id ≡ b.room_id
  pub state : a.state ≡ b.state
  pub config : a.config ≡ b.config
  pub players : Perm a.players.members b.players.members
  pub senders : (p : PlayerId) → HashMap.get p a.senders ≡ HashMap.get p b.senders
  pub game_state : a.game_state ≡ b.game_state
  pub game_config : a.game_config ≡ b.game_config

module _ {g : GameLogic} {a b : RoomActor g} (s : Same a b) where
  contains-Same : (p : PlayerId) → HashSet.contains p a.players ≡ HashSet.contains p b.players
  unfolding HashSet.contains
  contains-Same p = elem-perm p s.players

  len-Same : HashSet.len a.players ≡ HashSet.len b.players
  unfolding HashSet.len
  len-Same = length-perm s.players

  inserted-Same :
      (p : PlayerId)
      → Perm (HashSet.insert p a.players).members (HashSet.insert p b.players).members
  unfolding HashSet.insert
  inserted-Same p = elim (Bool-cases (HashSet.contains p a.players)) [
    | inl inside ↦ rw (inside, sym (contains-Same p) ∙ inside) s.players
    | inr out ↦ rw (out, sym (contains-Same p) ∙ out) (Perm.cons p s.players)
  ]

  entered-Same :
      (p : PlayerId) (c : PlayerSender)
      → Same
          (record a {
            players = HashSet.insert p a.players;
            senders = HashMap.insert p c a.senders;
          })
          (record b {
            players = HashSet.insert p b.players;
            senders = HashMap.insert p c b.senders;
          })
  unfolding HashSet.insert
  entered-Same p c = record {
    room_id = s.room_id;
    state = s.state;
    config = s.config;
    players = inserted-Same p;
    senders = λ q. ground (
      arith,
      s.senders q,
      HashMap.get-insert p q c a.senders,
      HashMap.get-insert p q c b.senders,
    );
    game_state = s.game_state;
    game_config = s.game_config;
  }

  left-Same :
      (p : PlayerId)
      → Same
          (record a { players = HashSet.remove p a.players; senders = HashMap.remove p a.senders })
          (record b { players = HashSet.remove p b.players; senders = HashMap.remove p b.senders })
  unfolding HashSet.remove
  left-Same p = record {
    room_id = s.room_id;
    state = s.state;
    config = s.config;
    players = drop_all-perm p s.players;
    senders = λ q.
        ground
          (arith, s.senders q, HashMap.get-remove p q a.senders, HashMap.get-remove p q b.senders);
    game_state = s.game_state;
    game_config = s.game_config;
  }
