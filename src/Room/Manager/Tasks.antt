-- ===== src/Room/Manager/Tasks.antt =====
-- A room's task takes a command of its channel on its own, while the manager does something else.
use archforge.Prelude.{
  ◌≡◌, refl, ◌∙◌, ap, true, List, [], ◌∷◌, some, arith, nat_eq, every, false, ◌++◌, append-nil,
  append_assoc, length, every-append, sym,
}
use archforge.Prelude.HashMap
use archforge.Prelude.HashSet
use archforge.Protocol.{PlayerId, RoomId}
use archforge.Room.Logic.{GameLogic}
use archforge.Room.Actor.{RoomActor, RoomCommand, handle}
use archforge.Room.Actor.Invariant.{handle-IsValid}
use archforge.Room.Handle.{Room, run, is_shutdown, serve}
use archforge.Room.Handle.Mailbox.{serve_many}
use archforge.Room.Manager.{RoomManager, put_room}
use archforge.Room.Manager.Seats.{IsLive, has, is_quiet, handle_quiet}
use archforge.Room.Manager.Invariant.{IsValid, put_room-IsValid}

module _ {g : GameLogic} {rid : RoomId} {r : Room g} (l : IsLive rid r) where
  serve_at :
      (q : List (RoomCommand g))
      → r.mailbox ≡ q
      → every is_quiet q ≡ true
      → IsLive rid (serve r).0 × ((p : PlayerId) → has p (serve r).0 ≡ has p r)
  unfolding serve every
  serve_at [] e h = rw (e, serve) (l, λ p. refl)
  serve_at (c ∷ cs) e h =
      let (here, seats, name) = handle_quiet r.actor c (ground (arith, h)) in
      rw (e, serve, here)
        (
          record {
            named = l.named;
            actor_named = name ∙ l.actor_named;
            running = l.running;
            quiet = ground (arith, h);
            valid = handle-IsValid r.actor c l.valid;
          },
          λ p. ap (HashSet.contains p) seats,
        )

  serve-IsLive : IsLive rid (serve r).0 × ((p : PlayerId) → has p (serve r).0 ≡ has p r)
  serve-IsLive = serve_at r.mailbox refl l.quiet

-- A task that goes on by a command keeps the manager valid.
pub serve-IsValid :
    {g : GameLogic} (m : RoomManager g) (rid : RoomId) (room : Room g)
    → IsValid m
    → HashMap.get rid m.rooms ≡ some room
    → IsValid (put_room m rid (serve room).0)
serve-IsValid m rid room v there =
    let (l, seats) = serve-IsLive (v.live rid room there) in put_room-IsValid v there l seats

-- The task of a room serves what waits in its channel.
module _ {g : GameLogic} where
  run-last :
      (a : RoomActor g) (q : List (RoomCommand g)) (c : RoomCommand g)
      → every is_quiet q ≡ true
      → is_shutdown c ≡ false
      → let (b, _, early) = run a q in
        let (b', _, sends) = handle b c in run a (q ++ c ∷ []) ≡ (b', false, early ++ sends)
  unfolding run every
  run-last a [] c h last =
      rw last (ap (λ s. ((handle a c).0, false, s)) (append-nil (handle a c).2))
  run-last a (x ∷ q) c h last =
      let (here, _, _) = handle_quiet a x (ground (arith, h)) in
      let (b, _, early) = run (handle a x).0 q in
      let later = run-last (handle a x).0 q c (ground (arith, h)) last in
      ground (arith, here, later, append_assoc (handle a x).2 early (handle b c).2)

  serve_many-run :
      (r : Room g) (q rest : List (RoomCommand g))
      → every is_quiet q ≡ true
      → let (a, _, sends) = run r.actor q in
        serve_many (length q) (record r { mailbox = q ++ rest })
        ≡ (record r { actor = a; mailbox = rest }, sends)
  unfolding serve_many serve run every
  serve_many-run r [] rest h = refl
  serve_many-run r (c ∷ q) rest h =
      let (here, _, _) = handle_quiet r.actor c (ground (arith, h)) in
      let a = (handle r.actor c).0 in
      let later = serve_many-run (record r { actor = a }) q rest (ground (arith, h)) in
      rw here (ap (λ s. (s.0, (handle r.actor c).2 ++ s.1)) later)

  -- A task that serves all that waits in its channel comes to the last command in the state in which
  -- the commands before leave it.
  pub serve_many-last :
      (r : Room g) (q : List (RoomCommand g)) (c : RoomCommand g)
      → every is_quiet q ≡ true
      → is_quiet c ≡ true
      → let (a, _, early) = run r.actor q in
        let (a', _, sends) = handle a c in
        serve_many (length (q ++ c ∷ [])) (record r { mailbox = q ++ c ∷ [] })
        ≡ (record r { actor = a'; mailbox = [] }, early ++ sends)
  unfolding every
  serve_many-last r q c h last =
      let all = q ++ c ∷ [] in
      let (goes_on, _, _) = handle_quiet (run r.actor q).0 c last in
      let quiet : every is_quiet all ≡ true =
        every-append is_quiet q (c ∷ []) h (ground (arith, last)) in
      let served = serve_many-run r all [] quiet in
      let ran = run-last r.actor q c h goes_on in
      ap (λ m. serve_many (length all) (record r { mailbox = m })) (sym (append-nil all))
      ∙ served
      ∙ ap (λ x. (record r { actor = x.0; mailbox = [] }, x.2)) ran
