-- ===== src/Checks/Wire.antt =====
-- A small wire format for the tests, as the `serde_json` of a test server: it writes the envelopes that
-- the tests need, and fails on the others.
use archforge.Prelude.{
  ℕ, ◌≡◌, String, [], ◌∷◌, none, Result, ok, err, map_ok, if◌then◌else◌, ◌==◌, arith, Result-cases,
  inl, inr,
}
use archforge.Protocol.{
  Bytes, Envelope, Payload, Channel, reliable_ordered, reliable_unordered, unreliable, system, game,
  SystemMessage, handshake, handshake_ack, heartbeat, heartbeat_ack, join_room, leave_room,
  room_state, room_joined, join_or_create,
}
use archforge.Protocol.Codec.{Serde, Codec, json_codec, IsInverse}
use archforge.Checks.Game.{adding}

-- A number is one element.
abbrev pub numbers : Serde ℕ
numbers = record {
  to_vec = λ n. ok (n ∷ []);
  from_slice = λ b. elim b [ [] ↦ err "end of input" | n ∷ rest ↦ ok n ];
}

write : Payload → Result String Bytes
write (game b) = ok (0 ∷ b)
write (system (room_state b)) = ok (1 ∷ b)
write (system (handshake v none)) = ok (2 ∷ v ∷ [])
write (system (handshake_ack p t)) = ok (3 ∷ p ∷ t ∷ [])
write (system (heartbeat t)) = ok (4 ∷ t ∷ [])
write (system (heartbeat_ack t u)) = ok (5 ∷ t ∷ u ∷ [])
write (system (join_room r)) = ok (6 ∷ r ∷ [])
write (system (room_joined r String.[])) = ok (7 ∷ r ∷ [])
write (system (join_or_create String.[] b)) = ok (8 ∷ b)
write (system leave_room) = ok (9 ∷ [])
write _ = err "not in this format"

read_two : (ℕ → ℕ → SystemMessage) → Bytes → Result String Payload
read_two f (a ∷ b ∷ rest) = ok (system (f a b))
read_two f _ = err "end of input"

read_one : (ℕ → SystemMessage) → Bytes → Result String Payload
read_one f (a ∷ rest) = ok (system (f a))
read_one f _ = err "end of input"

read : Bytes → Result String Payload
unfolding read_one read_two
read [] = err "end of input"
read (k ∷ b) =
    if k == 0
    then ok (game b)
    else if k == 1
    then ok (system (room_state b))
    else if k == 2
    then read_one (λ v. handshake v none) b
    else if k == 3
    then read_two handshake_ack b
    else if k == 4
    then read_one heartbeat b
    else if k == 5
    then read_two heartbeat_ack b
    else if k == 6
    then read_one join_room b
    else if k == 7
    then read_one (λ r. room_joined r "") b
    else if k == 8
    then ok (system (join_or_create "" b))
    else ok (system leave_room)

read-write : (p : Payload) (b : Bytes) → write p ≡ ok b → read b ≡ ok p
unfolding write read
read-write (game d) b h = ground (arith, h)
read-write (system (room_state d)) b h = ground (arith, h)
read-write (system (handshake v none)) b h = ground (arith, h)
read-write (system (handshake_ack p t)) b h = ground (arith, h)
read-write (system (heartbeat t)) b h = ground (arith, h)
read-write (system (heartbeat_ack t u)) b h = ground (arith, h)
read-write (system (join_room r)) b h = ground (arith, h)
read-write (system (room_joined r String.[])) b h = ground (arith, h)
read-write (system (join_or_create String.[] d)) b h = ground (arith, h)
read-write (system leave_room) b h = ground (arith, h)
read-write _ b h = ground (arith, h)

-- An envelope on the ordered channel is its number, its time and its payload.
pub write_envelope : ℕ → ℕ → Channel → Payload → Result String Bytes
write_envelope seq time reliable_ordered p = map_ok (λ b. seq ∷ time ∷ b) (write p)
write_envelope seq time _ p = err "not in this format"

pub read_envelope : Bytes → Result String Envelope
read_envelope (seq ∷ time ∷ b) =
    map_ok (λ p. record { seq = seq; timestamp = time; channel = reliable_ordered; payload = p })
      (read b)
read_envelope _ = err "end of input"

abbrev pub envelopes : Serde Envelope
envelopes = record {
  to_vec = λ e. write_envelope e.seq e.timestamp e.channel e.payload;
  from_slice = read_envelope;
}

abbrev pub codec : Codec adding
codec = json_codec envelopes numbers numbers numbers

-- What a test has to open for the format to run.
unfoldable pub wiring : Unit {0}
unfolding write_envelope read_envelope write read json_codec
wiring = tt

read_envelope-write_envelope :
    (seq time : ℕ) (channel : Channel) (p : Payload) (b : Bytes)
    → write_envelope seq time channel p ≡ ok b
    → read_envelope b ≡ ok (record { seq = seq; timestamp = time; channel = channel; payload = p })
unfolding write_envelope read_envelope
read_envelope-write_envelope seq time reliable_ordered p b h = elim (Result-cases (write p)) [
  | inl (d, good) ↦ ground (arith, h, good, read-write p d good)
  | inr (why, bad) ↦ ground (arith, h, bad)
]
read_envelope-write_envelope seq time reliable_unordered p b h = ground (arith, h)
read_envelope-write_envelope seq time unreliable p b h = ground (arith, h)

pub envelopes-IsInverse : IsInverse envelopes
envelopes-IsInverse v b h = read_envelope-write_envelope v.seq v.timestamp v.channel v.payload b h
