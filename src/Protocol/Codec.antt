-- ===== src/Protocol/Codec.antt =====
-- codec.rs and error.rs: the codec as a record of two functions for each type that the server
-- encodes. `serde_json` is a parameter: a pair of functions for each type, with its errors as text.
use archforge.Prelude.{Result, ok, map_err, String, ◌≡◌, inl, inr, arith, Result-cases}
use Prim.Native.String.{◌++◌ as ◌<>◌}
use archforge.Protocol.{Bytes, Envelope}
use archforge.Room.Logic.{GameLogic}

pub data ProtocolError : Type 0 where
  encode decode invalid_message : String → ProtocolError

-- The methods of the trait at one type.
pub record Format (T : Type 0) : Type 0 where
  pub encode : T → Result ProtocolError Bytes
  pub decode : Bytes → Result ProtocolError T

pub record Codec (g : GameLogic) : Type 0 where
  pub envelope : Format Envelope
  pub state : Format g.State
  pub client_message : Format g.ClientMessage
  pub server_message : Format g.ServerMessage

-- `serde_json::to_vec` and `serde_json::from_slice` at one type.
pub record Serde (T : Type 0) : Type 0 where
  pub to_vec : T → Result String Bytes
  pub from_slice : Bytes → Result String T

unfoldable pub json : {T : Type 0} → Serde T → Format T
json serde = record {
  encode = λ v. map_err ProtocolError.encode (serde.to_vec v);
  decode = λ b. map_err ProtocolError.decode (serde.from_slice b);
}

unfoldable pub json_codec :
    {g : GameLogic}
    → Serde Envelope
    → Serde g.State
    → Serde g.ClientMessage
    → Serde g.ServerMessage
    → Codec g
unfolding json
json_codec envelope state client_message server_message = record {
  envelope = json envelope;
  state = json state;
  client_message = json client_message;
  server_message = json server_message;
}

-- The documented promise of `serde_json`: what is written can be read back.
abbrev pub IsInverse : {T : Type 0} → Serde T → Type 0
IsInverse {T} s = (v : T) (b : Bytes) → s.to_vec v ≡ ok b → s.from_slice b ≡ ok v

-- What is encoded can be decoded.
abbrev pub IsReadable : {T : Type 0} → Format T → Type 0
IsReadable {T} f = (v : T) (b : Bytes) → f.encode v ≡ ok b → f.decode b ≡ ok v

-- `Display` of a `ProtocolError`.
unfoldable pub protocol_text : ProtocolError → String
protocol_text (ProtocolError.encode e) = "encode failed: " <> e
protocol_text (ProtocolError.decode e) = "decode failed: " <> e
protocol_text (invalid_message e) = "invalid message: " <> e

pub json-IsReadable : {T : Type 0} (serde : Serde T) → IsInverse serde → IsReadable (json serde)
unfolding json
json-IsReadable serde back v b h = elim (Result-cases (serde.to_vec v)) [
  | inr (e, bad) ↦ ground (arith, h, bad)
  | inl (b', good) ↦ ground (arith, h, good, back v b')
]
