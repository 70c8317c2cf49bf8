-- ===== src/Server/Connection/Reading.antt =====
-- What a client reads.
use archforge.Prelude.{
  ℕ, zero, suc, ◌%◌, ◌^◌, ◌≡◌, refl, Bool, String, List, [], ◌∷◌, Option, none, some, Result, ok,
  err, arith, length,
}
use archforge.Protocol.{Bytes, Envelope}
use archforge.Protocol.Codec.{
  Format, ProtocolError, Serde, json_codec, IsInverse, IsReadable, json, json-IsReadable,
}
use archforge.Transport.{Connection}
use archforge.Session.{Instant}
use archforge.Room.Logic.{GameLogic}
use archforge.Server.{ServerState}
use archforge.Server.Action.Sending.{Logged}
use archforge.Server.Handler.{Ready}
use archforge.Server.Connection.{handle_connection}
use archforge.Server.Connection.Numbering.{handle_connection-Logged}

-- The number of the envelope that was read, if one was.
abbrev pub number_of : Result ProtocolError Envelope → Option ℕ
number_of (ok e) = some e.seq
number_of (err e) = none

-- The numbers that a client reads.
unfoldable pub numbers : Format Envelope → List Bytes → List (Option ℕ)
numbers f [] = []
numbers f (b ∷ bs) = number_of (f.decode b) ∷ numbers f bs

-- As many numbers of type `u64`, from `n` on.
unfoldable pub count_from : ℕ → ℕ → List (Option ℕ)
count_from n zero = []
count_from n (suc k) = some (n % 2 ^ 64) ∷ count_from (suc n) k

Logged-numbers :
    (f : Format Envelope) (n : ℕ) (bs : List Bytes)
    → IsReadable f
    → Logged f n bs
    → numbers f bs ≡ count_from n (length bs)
unfolding numbers count_from
Logged-numbers f n [] back logged = refl
Logged-numbers f n (b ∷ bs) back ((e, good, number), rest) =
    ground (arith, back e b good, number, Logged-numbers f (suc n) bs back rest)

-- With the JSON codec, and a `serde_json` that reads back what it writes, a client that decodes
-- all that a connection sends it, in order, reads the numbers 0, 1, 2 and so on, as `u64`, with no gap
-- and no repetition, and every decoding succeeds.
pub handle_connection-numbers :
    {g : GameLogic} (c : Connection) (serde : Serde Envelope) (state : Serde g.State)
    (client : Serde g.ClientMessage) (server : Serde g.ServerMessage) (late : Bool) (now now' : ℕ)
    (token : String) (rounds : List Ready) (at : Instant) (s : ServerState g) (conn : c.Conn)
    → s.codec ≡ json_codec serde state client server
    → IsInverse serde
    → let sent = (handle_connection {c = c} late now now' token rounds at s conn).0.sent in
      numbers s.codec.envelope sent ≡ count_from 0 (length sent)
unfolding json_codec
handle_connection-numbers c serde state client server late now now' token rounds at s conn json
      back =
    let sent = (handle_connection {c = c} late now now' token rounds at s conn).0.sent in
    Logged-numbers s.codec.envelope 0 sent (rw json (json-IsReadable serde back))
      (handle_connection-Logged c late now now' token rounds at s conn).0
