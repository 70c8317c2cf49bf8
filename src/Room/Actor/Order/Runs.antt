-- ===== src/Room/Actor/Order/Runs.antt =====
-- A room's whole run under another order of its hash set and its hash map.
use archforge.Prelude.{
  suc, ◌≡◌, refl, ◌∙◌, sym, true, false, List, [], ◌∷◌, none, some, Result, ok, err, arith, ◌&&◌,
  leb, is_ok, nat_eq, inl, inr, Bool-cases, Option-cases,
}
use archforge.Prelude.HashMap
use archforge.Prelude.HashSet
use archforge.Prelude.Sort.{sort-eq_of_perm}
use archforge.Protocol.{PlayerId, Recipient}
use archforge.Room.Logic.{GameLogic}
use archforge.Room.Actor.{
  RoomActor, RoomCommand, RoomOutbound, PlayerSender, Sends, handle, handle_join, handle_leave,
  handle_message, auto_start, dispatch, join, leave, get_state, shutdown,
}
use archforge.Room.Actor.Invariant.{
  IsValid, handle-IsValid, handle_join-IsValid, handle_leave-IsValid, handle_message-IsValid,
}
use archforge.Room.Actor.Delivery.{Owns, received, received-dispatch}
use archforge.Room.Actor.Start.{handle_join_snapshot}
use archforge.Room.Actor.Order.{Same, len-Same}
use archforge.Room.Actor.Order.Commands.{
  handle_join-Same, handle_leave-Same, handle_message-Same, info-Same, handle_leave_sends,
  handle_message_sends, leave_messages, message_messages, leave_messages-Same,
  message_messages-Same,
}

-- Each player listens on a channel of their own.
pub record Apart {g : GameLogic} (a : RoomActor g) : Type 0 where
  pub apart :
      (p q : PlayerId) (c : PlayerSender)
      → HashMap.get p a.senders ≡ some c
      → HashMap.get q a.senders ≡ some c
      → p ≡ q

is_ok-ok : {E : Type 0} (r : Result E (Unit {0})) → is_ok r ≡ true → r ≡ ok tt
is_ok-ok (ok _) h = refl
is_ok-ok (err e) h = cc

module _ {g : GameLogic} where
  -- The messages that a player of the room is sent, in order.
  unfoldable pub heard : RoomActor g → PlayerId → Sends g → List (RoomOutbound g)
  unfolding received
  heard a p sends = elim (HashMap.get p a.senders) [ none ↦ [] | some c ↦ received c sends ]

  -- Both rooms reply the same, and each player is sent the same.
  abbrev pub Agrees : RoomActor g → RoomActor g → RoomCommand g → Type 0
  Agrees a b x =
      let (a', r, sends) = handle a x in
      let (b', r', sends') = handle b x in
      Same a' b' × (r ≡ r') × ((p : PlayerId) → heard a' p sends ≡ heard b' p sends')

  heard-Same :
      (a b : RoomActor g) (p : PlayerId) (sends sends' : Sends g)
      → Same a b
      → ((c : PlayerSender)
          → HashMap.get p a.senders ≡ some c
          → received c sends ≡ received c sends')
      → heard a p sends ≡ heard b p sends'
  unfolding heard
  heard-Same a b p sends sends' s same = elim (Option-cases (HashMap.get p a.senders)) [
    | inl gone ↦ ground (arith, gone, s.senders p)
    | inr (c, there) ↦ ground (arith, there, s.senders p, same c there)
  ]

  module _ {a b : RoomActor g} (s : Same a b) (v : IsValid a) (w : IsValid b) (o : Apart a) where
    owns : (p : PlayerId) (c : PlayerSender) → HashMap.get p a.senders ≡ some c → Owns a p c
    owns p c h = record { channel = h; only = λ q k. o.apart q p c k h }

    owns' : (p : PlayerId) (c : PlayerSender) → HashMap.get p a.senders ≡ some c → Owns b p c
    owns' p c h = record {
      channel = sym (s.senders p) ∙ h;
      only = λ q k. o.apart q p c (s.senders q ∙ k) h;
    }

    heard-dispatch :
        (msgs : List (Recipient × g.ServerMessage)) (p : PlayerId)
        → heard a p (dispatch a msgs) ≡ heard b p (dispatch b msgs)
    heard-dispatch msgs p = heard-Same a b p (dispatch a msgs) (dispatch b msgs) s (λ c h.
        received-dispatch (owns p c h) msgs v ∙ sym (received-dispatch (owns' p c h) msgs w))

  handle_join_quiet :
      (a : RoomActor g) (pid : PlayerId) (c : PlayerSender)
      → (is_ok (handle_join a pid c).1 && leb a.config.min_players (suc (HashSet.len a.players)))
        ≡ false
      → (handle_join a pid c).2 ≡ []
  unfolding handle_join auto_start
  handle_join_quiet a pid c h = ground (arith, HashSet.len-insert pid a.players)

  module _ {a b : RoomActor g} (s : Same a b) (v : IsValid a) (w : IsValid b) where
    join-received :
        (pid : PlayerId) (c : PlayerSender) (p : PlayerId) (d : PlayerSender)
        → Owns (handle_join a pid c).0 p d
        → Owns (handle_join b pid c).0 p d
        → received d (handle_join a pid c).2 ≡ received d (handle_join b pid c).2
    join-received pid c p d o o' =
        let (alike, same) = handle_join-Same s pid c in
        let size = suc (HashSet.len a.players) in
        elim (Bool-cases (is_ok (handle_join a pid c).1 && leb a.config.min_players size)) [
          | inr quiet ↦ ground (
            arith,
            same,
            s.config,
            len-Same s,
            handle_join_quiet a pid c,
            handle_join_quiet b pid c,
          )
          | inl starts ↦
              let good : (handle_join a pid c).1 ≡ ok tt =
                is_ok-ok (handle_join a pid c).1 (ground arith) in
              let enough : leb a.config.min_players size ≡ true = ground arith in
              let enough' : leb b.config.min_players (suc (HashSet.len b.players)) ≡ true =
                ground (arith, s.config, len-Same s, enough) in
              ground (
                arith,
                handle_join_snapshot a pid c p d v good enough o,
                handle_join_snapshot b pid c p d w (sym same ∙ good) enough' o',
                s.game_config,
                sort-eq_of_perm alike.players,
              )
        ]

  -- Nothing is heard when nothing is sent.
  heard-nothing : (a b : RoomActor g) (p : PlayerId) → heard a p [] ≡ heard b p []
  unfolding heard received
  heard-nothing a b p = ground arith

  module _ {a b : RoomActor g} (s : Same a b) (v : IsValid a) (w : IsValid b) where
    handle_join-Agrees :
        (pid : PlayerId) (c : PlayerSender)
        → Apart (handle_join a pid c).0
        → Agrees a b (join pid c)
    unfolding handle
    handle_join-Agrees pid c o =
        let (alike, same) = handle_join-Same s pid c in
        let v' = handle_join-IsValid a pid c v in
        let w' = handle_join-IsValid b pid c w in
        (
          alike,
          ground (arith, same),
          λ p.
              heard-Same (handle_join a pid c).0 (handle_join b pid c).0 p (handle_join a pid c).2
                (handle_join b pid c).2 alike
                (λ d h.
                  join-received s v w pid c p d (owns alike v' w' o p d h)
                    (owns' alike v' w' o p d h)),
        )

    handle_leave-Agrees : (pid : PlayerId) → Apart (handle_leave a pid).0 → Agrees a b (leave pid)
    unfolding handle
    handle_leave-Agrees pid o =
        let (alike, same) = handle_leave-Same s pid in
        let v' = handle_leave-IsValid a pid v in
        let w' = handle_leave-IsValid b pid w in
        (
          alike,
          ground (arith, same),
          λ p.
              rw (handle_leave_sends a pid, handle_leave_sends b pid, ← leave_messages-Same s pid)
                (heard-dispatch alike v' w' o (leave_messages a pid) p),
        )

    handle_message-Agrees :
        (pid : PlayerId) (msg : g.ClientMessage)
        → Apart (handle_message a pid msg).0
        → Agrees a b (RoomCommand.message pid msg)
    unfolding handle
    handle_message-Agrees pid msg o =
        let alike = handle_message-Same s pid msg in
        let v' = handle_message-IsValid a pid msg v in
        let w' = handle_message-IsValid b pid msg w in
        (
          alike,
          refl,
          λ p.
              rw
                (
                  handle_message_sends a pid msg,
                  handle_message_sends b pid msg,
                  ← message_messages-Same s pid msg,
                )
                (heard-dispatch alike v' w' o (message_messages a pid msg) p),
        )

    handle-Agrees : (x : RoomCommand g) → Apart (handle a x).0 → Agrees a b x
    unfolding handle
    handle-Agrees (join pid c) o = handle_join-Agrees pid c o
    handle-Agrees (leave pid) o = handle_leave-Agrees pid o
    handle-Agrees (RoomCommand.message pid msg) o = handle_message-Agrees pid msg o
    handle-Agrees get_state o = (s, ground (arith, info-Same s), λ p. heard-nothing a b p)
    handle-Agrees shutdown o =
        (ground arith, refl, λ p. heard-nothing (handle a shutdown).0 (handle b shutdown).0 p)

  -- After each of the commands the players listen on channels of their own.
  unfoldable pub AllApart : RoomActor g → List (RoomCommand g) → Type 0
  AllApart a [] = Unit {0}
  AllApart a (x ∷ xs) = Apart (handle a x).0 × AllApart (handle a x).0 xs

  unfoldable pub AllAgree : RoomActor g → RoomActor g → List (RoomCommand g) → Type 0
  AllAgree a b [] = Same a b
  AllAgree a b (x ∷ xs) = Agrees a b x × AllAgree (handle a x).0 (handle b x).0 xs

  -- Nothing that a room does shows the order in which its hash set of players and its hash map of
  -- channels are walked. Two well-formed rooms that differ in these orders only stay so under any
  -- commands, reply the same to each of them, and send each player of the room the same messages in
  -- the same order, as long as no two players listen on one channel.
  pub run-AllAgree :
      (a b : RoomActor g) (xs : List (RoomCommand g))
      → Same a b
      → IsValid a
      → IsValid b
      → AllApart a xs
      → AllAgree a b xs
  unfolding AllApart AllAgree
  run-AllAgree a b [] s v w o = s
  run-AllAgree a b (x ∷ xs) s v w (o, rest) =
      let agrees = handle-Agrees s v w x o in
      (
        agrees,
        run-AllAgree (handle a x).0 (handle b x).0 xs agrees.0 (handle-IsValid a x v)
            (handle-IsValid b x w) rest,
      )
