-- ===== src/Transport/Frames.antt =====
-- What a client's frames come to.
use archforge.Prelude.{
  ◌<◌, length, ◌≡◌, refl, String, List, [], ◌∷◌, ◌++◌, Option, none, some, Result, ok, err, arith,
  Bool, true, false, every,
}
use archforge.Protocol.{Bytes}
use archforge.Transport.{
  Message, text, binary, ping, pong, frame, close, TransportError, receive_failed, recv_from,
}

-- A frame that is not for the handler.
abbrev pub is_control : Result String Message → Bool
is_control (ok (ping b)) = true
is_control (ok (pong b)) = true
is_control (ok (frame b)) = true
is_control _ = false

-- What a frame that is no control frame tells the handler.
abbrev pub told : Result String Message → Result TransportError (Option Bytes)
told (ok (binary b)) = ok (some b)
told (ok (text b)) = ok (some b)
told (ok _) = ok none
told (err e) = err (receive_failed e)

told_by :
    (m : Result String Message) (rest : List (Result String Message))
    → is_control m ≡ false
    → recv_from (m ∷ rest) ≡ (rest, told m)
unfolding recv_from
told_by (ok (binary b)) rest h = refl
told_by (ok (text b)) rest h = refl
told_by (ok close) rest h = refl
told_by (ok (ping b)) rest h = ground arith
told_by (ok (pong b)) rest h = ground arith
told_by (ok (frame b)) rest h = ground arith
told_by (err e) rest h = refl

-- However many control frames come first, `recv` returns what the next other frame says, and leaves
-- what comes behind it to the next call; if there is none, the connection is closed.
pub recv_from_lem :
    (cs : List (Result String Message)) (m : Result String Message)
    (rest : List (Result String Message))
    → every is_control cs ≡ true
    → is_control m ≡ false
    → (recv_from (cs ++ m ∷ rest) ≡ (rest, told m)) × (recv_from cs ≡ ([], ok none))
unfolding recv_from every
recv_from_lem [] m rest h k = (told_by m rest k, refl)
recv_from_lem (ok (ping b) ∷ cs) m rest h k = recv_from_lem cs m rest h k
recv_from_lem (ok (pong b) ∷ cs) m rest h k = recv_from_lem cs m rest h k
recv_from_lem (ok (frame b) ∷ cs) m rest h k = recv_from_lem cs m rest h k
recv_from_lem (ok (binary b) ∷ cs) m rest h k = ground arith
recv_from_lem (ok (text b) ∷ cs) m rest h k = ground arith
recv_from_lem (ok close ∷ cs) m rest h k = ground arith
recv_from_lem (err e ∷ cs) m rest h k = ground arith

-- A frame that is handed over is used up, with the control frames in front of it.
pub recv_from-shorter :
    (ms : List (Result String Message)) (b : Bytes)
    → (recv_from ms).1 ≡ ok (some b)
    → length (recv_from ms).0 < length ms
unfolding recv_from
recv_from-shorter [] b h = ground (arith, h)
recv_from-shorter (ok (binary d) ∷ rest) b h = omega arith
recv_from-shorter (ok (text d) ∷ rest) b h = omega arith
recv_from-shorter (ok close ∷ rest) b h = ground (arith, h)
recv_from-shorter (ok (ping d) ∷ rest) b h = omega (arith, recv_from-shorter rest b h)
recv_from-shorter (ok (pong d) ∷ rest) b h = omega (arith, recv_from-shorter rest b h)
recv_from-shorter (ok (frame d) ∷ rest) b h = omega (arith, recv_from-shorter rest b h)
recv_from-shorter (err e ∷ rest) b h = ground (arith, h)
