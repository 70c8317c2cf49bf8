-- ===== src/Room/Handle/Mailbox.antt =====
-- A room's task that serves commands of its channel between the requests.
use archforge.Prelude.{
  ◌≡◌, refl, ◌∙◌, ap, Bool, true, false, List, [], ◌∷◌, ◌++◌, arith, append_assoc, append-nil, none,
  ok, err, every, ℕ, zero, suc,
}
use archforge.Room.Logic.{GameLogic}
use archforge.Protocol.{PlayerId}
use archforge.Room.State.{destroying, unavailable}
use archforge.Room.Actor.{
  RoomActor, RoomCommand, PlayerSender, Sends, handle, shutdown as shutdown_command,
}
use archforge.Room.Handle
use archforge.Room.Handle.{Room, run, serve, request, is_shutdown}

module _ {g : GameLogic} where
  -- The task serves up to `n` commands before the next request.
  unfoldable pub serve_many : ℕ → Room g → Room g × Sends g
  unfolding serve
  serve_many zero r = (r, [])
  serve_many (suc n) r =
      let (r', sends) = serve r in let (r'', more) = serve_many n r' in (r'', sends ++ more)

  request-serve_one :
      (r : Room g) (c x : RoomCommand g) (q : List (RoomCommand g))
      → let s = record r { mailbox = x ∷ q; stopped = false } in
        let (r', early) = serve s in
        let (r'', reply, sends) = request r' c in request s c ≡ (r'', reply, early ++ sends)
  unfolding serve request run
  request-serve_one r c x q =
      let a = (handle r.actor x).0 in
      let sends = (handle r.actor x).2 in
      let ran = run a q in
      ground (arith, append_assoc sends ran.2 (handle ran.0 c).2, append-nil sends)

  request-serve_from :
      (r : Room g) (c : RoomCommand g) (q : List (RoomCommand g)) (b : Bool)
      → let s = record r { mailbox = q; stopped = b } in
        (b ≡ true → q ≡ [])
        → let (r', early) = serve s in
          let (r'', reply, sends) = request r' c in request s c ≡ (r'', reply, early ++ sends)
  unfolding serve request run
  request-serve_from r c [] b h = refl
  request-serve_from r c (x ∷ q) false h = request-serve_one r c x q
  request-serve_from r c (x ∷ q) true h = cc (h refl)

  -- The channel of a task that has ended holds nothing.
  abbrev pub IsOpen : Room g → Type 0
  IsOpen r = r.stopped ≡ true → r.mailbox ≡ []

  serve-IsOpen_from :
      (r : Room g) (q : List (RoomCommand g)) (b : Bool)
      → (b ≡ true → q ≡ [])
      → IsOpen (serve (record r { mailbox = q; stopped = b })).0
  unfolding serve
  serve-IsOpen_from r [] b h = h
  serve-IsOpen_from r (x ∷ q) b h = ground (arith, h)

  serve-IsOpen : (r : Room g) → IsOpen r → IsOpen (serve r).0
  serve-IsOpen r h = serve-IsOpen_from r r.mailbox r.stopped h

  -- However many of the waiting commands the task serves before a request is sent, the reply, the
  -- state after it, and all that is sent on the way, in order, are the same.
  request-serve_many :
      (n : ℕ) (r : Room g) (c : RoomCommand g)
      → IsOpen r
      → let (r', early) = serve_many n r in
        let (r'', reply, sends) = request r' c in request r c ≡ (r'', reply, early ++ sends)
  unfolding serve_many
  request-serve_many zero r c h = refl
  request-serve_many (suc n) r c h =
      let first = request-serve_from r c r.mailbox r.stopped h in
      let later = request-serve_many n (serve r).0 c (serve-IsOpen r h) in
      ground (
        arith,
        first,
        later,
        append_assoc (serve r).1 (serve_many n (serve r).0).1
            (request (serve_many n (serve r).0).0 c).2,
      )

  -- The commands but `Shutdown`.
  abbrev pub goes_on : RoomCommand g → Bool
  goes_on shutdown_command = false
  goes_on _ = true

  -- The state that commands lead to, one after the other, and all that is sent.
  unfoldable pub in_order : RoomActor g → List (RoomCommand g) → RoomActor g × Sends g
  in_order a [] = (a, [])
  in_order a (x ∷ q) =
      let (a', _, sends) = handle a x in let (b, more) = in_order a' q in (b, sends ++ more)

  goes_on-is_shutdown : (x : RoomCommand g) → goes_on x ≡ true → is_shutdown x ≡ false
  unfolding is_shutdown
  goes_on-is_shutdown x h = ground (arith, h)

  run-cons :
      (a : RoomActor g) (x : RoomCommand g) (q : List (RoomCommand g))
      → is_shutdown x ≡ false
      → let (a', _, sends) = handle a x in
        let (b, ended, more) = run a' q in run a (x ∷ q) ≡ (b, ended, sends ++ more)
  unfolding run
  run-cons a x q h = rw h refl

  run-one :
      (a : RoomActor g)
      → run a (shutdown_command ∷ []) ≡ (record a { state = destroying }, true, [])
  unfolding run handle is_shutdown
  run-one a = refl

  run-shutdown :
      (a : RoomActor g) (q : List (RoomCommand g))
      → every goes_on q ≡ true
      → let (b, sends) = in_order a q in
        (run a q ≡ (b, false, sends))
        × (run a (q ++ shutdown_command ∷ []) ≡ (record b { state = destroying }, true, sends))
  unfolding every in_order
  run-shutdown a [] h = (unfold run in refl, run-one a)
  run-shutdown a (x ∷ q) h =
      let (a', _, sends) = handle a x in
      let here = goes_on-is_shutdown x (ground (arith, h)) in
      let (gone, ended) = run-shutdown a' q (ground (arith, h)) in
      let join : RoomActor g × Bool × Sends g → RoomActor g × Bool × Sends g =
        λ y. (y.0, y.1, sends ++ y.2) in
      (
        run-cons a x q here ∙ ap join gone,
        run-cons a x (q ++ shutdown_command ∷ []) here ∙ ap join ended,
      )

  pub request-shutdown :
      (r : Room g) (c : RoomCommand g) (pid : PlayerId) (s : PlayerSender) (msg : g.ClientMessage)
      → r.stopped ≡ false
      → every goes_on r.mailbox ≡ true
      → let (r', answer) = Handle.shutdown r in
        let (r'', reply, sends) = request r' c in
        let (b, early) = in_order r.actor r.mailbox in
        (answer ≡ ok tt)
        × (reply ≡ none)
        × (sends ≡ early)
        × (r''.actor ≡ record b { state = destroying })
        × (r''.stopped ≡ true)
        × (r''.mailbox ≡ [])
        × (Handle.join r'' pid s ≡ (r'', err (unavailable r.room_id), []))
        × (Handle.leave_room r'' pid ≡ (r'', err (unavailable r.room_id), []))
        × (Handle.get_info r'' ≡ (r'', err (unavailable r.room_id), []))
        × (Handle.send_message r'' pid msg ≡ (r'', err (unavailable r.room_id)))
  unfolding Handle.shutdown Handle.join Handle.leave_room Handle.get_info Handle.send_message
  request-shutdown r c pid s msg runs h =
      let (_, ran) = run-shutdown r.actor r.mailbox h in ground (arith, runs, ran)
