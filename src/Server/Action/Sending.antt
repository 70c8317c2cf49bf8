-- ===== src/Server/Action/Sending.antt =====
-- What the sending of one envelope comes to, and the records of what was sent.
use archforge.Prelude.{
  ℕ, suc, ◌%◌, ◌^◌, ◌≤◌, ◌≡◌, ◌⊎◌, inl, inr, Bool, false, List, [], ◌∷◌, ◌++◌, ok, is_ok, arith,
  length, append-nil, append_assoc, subst, Result-cases,
}
use archforge.Protocol.{Bytes, Envelope}
use archforge.Protocol.Codec.{Format, Codec}
use archforge.Transport.{Connection}
use archforge.Room.Logic.{GameLogic}
use archforge.Server.Action.{Handler, send_envelope, encoded, transmit}

-- The bytes of envelopes that are numbered on from `n`, as `u64`.
abbrev pub Logged : Format Envelope → ℕ → List Bytes → Type 0
Logged f n [] = Unit {0}
Logged f n (b ∷ bs) =
    ((e : Envelope) × (f.encode e ≡ ok b) × (e.seq ≡ n % 2 ^ 64)) × Logged f (suc n) bs

-- What is sent from `h` to `h'` is numbered on from `n`.
abbrev pub Continued : {g : GameLogic} {c : Connection} → ℕ → ℕ → Handler g c → Handler g c → Type 0
Continued n most h h' =
    (bs : List Bytes) × (h'.sent ≡ h.sent ++ bs)
    × Logged h.server.codec.envelope n bs
    × (length bs ≤ most)

module _ {g : GameLogic} {c : Connection} where
  -- What the sending of an envelope comes to.
  abbrev pub Put : Handler g c → Envelope → Handler g c → Bool → Type 0
  Put h e h' good =
      (h'.seq ≡ h.seq)
      × (h'.server ≡ h.server)
      × (((h'.sent ≡ h.sent) × (good ≡ false))
          ⊎ ((b : Bytes) × (h.server.codec.envelope.encode e ≡ ok b)
              × (h'.sent ≡ h.sent ++ b ∷ [])))

  pub send_envelope-Put :
      (h : Handler g c) (e : Envelope) → let (h', r) = send_envelope e h in Put h e h' (is_ok r)
  unfolding send_envelope encoded transmit
  send_envelope-Put h e = elim (Result-cases (h.server.codec.envelope.encode e)) [
    | inr (why, bad) ↦ (ground arith, ground arith, inl (ground arith, ground arith))
    | inl (b, good) ↦ elim (Result-cases (c.send h.conn b).1) [
      | inl (u, out) ↦ (ground arith, ground arith, inr (b, good, ground arith))
      | inr (why, bad) ↦ (ground arith, ground arith, inl (ground arith, ground arith))
    ]
  ]

  pub Continued-cons :
      (n most : ℕ) (h h' : Handler g c) (h'' : Handler g c) (b : Bytes) (e : Envelope)
      → h'.server.codec ≡ h.server.codec
      → h.server.codec.envelope.encode e ≡ ok b
      → e.seq ≡ n % 2 ^ 64
      → h'.sent ≡ h.sent ++ b ∷ []
      → Continued (suc n) most h' h''
      → Continued n (suc most) h h''
  Continued-cons n most h h' h'' b e codec good number one (bs, more, logged, few) = (
    b ∷ bs,
    ground (arith, more, one, append_assoc h.sent (b ∷ []) bs),
    ((e, good, number), subst (λ (k : Codec g). Logged k.envelope (suc n) bs) codec logged),
    omega (arith, few),
  )

  pub Continued-skip :
      (n most : ℕ) (h h' : Handler g c) (h'' : Handler g c)
      → h'.server.codec ≡ h.server.codec
      → h'.sent ≡ h.sent
      → Continued n most h' h''
      → Continued n (suc most) h h''
  Continued-skip n most h h' h'' codec same (bs, more, logged, few) = (
    bs,
    ground (arith, more, same),
    subst (λ (k : Codec g). Logged k.envelope n bs) codec logged,
    omega (arith, few),
  )

  pub Continued-end : (n most : ℕ) (h : Handler g c) → Continued n most h h
  Continued-end n most h = ([], ground (arith, append-nil h.sent), tt, omega arith)
