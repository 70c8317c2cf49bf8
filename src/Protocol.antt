-- ===== src/Protocol.antt =====
-- The wire types of crates/arcforge-protocol/src/types.rs. The newtypes over `u64` are plain
-- numbers, texts are native strings, and bytes are lists of numbers.
pub mod Text
pub mod Codec
pub mod Decimal
use archforge.Prelude.{ℕ, String, List, Option}

abbrev pub PlayerId : Type 0
PlayerId = ℕ

abbrev pub RoomId : Type 0
RoomId = ℕ

abbrev pub Bytes : Type 0
Bytes = List ℕ

-- Who a server message is for.
pub data Recipient : Type 0 where
  all : Recipient
  player : PlayerId → Recipient
  all_except : PlayerId → Recipient

-- The delivery guarantee of a message.
pub data Channel : Type 0 where
  reliable_ordered reliable_unordered unreliable : Channel

-- `Channel::default()`, which serde also takes for a missing field.
abbrev pub default_channel : Channel
default_channel = reliable_ordered

pub record RoomListEntry : Type 0 where
  pub room_id : RoomId
  pub player_count : ℕ
  pub max_players : ℕ

pub data SystemMessage : Type 0 where
  -- version, token
  handshake : ℕ → Option String → SystemMessage
  -- player_id, server_time
  handshake_ack : PlayerId → ℕ → SystemMessage
  -- reason
  disconnect : String → SystemMessage
  -- client_time
  heartbeat : ℕ → SystemMessage
  -- client_time, server_time
  heartbeat_ack : ℕ → ℕ → SystemMessage
  join_room : RoomId → SystemMessage
  -- name, options
  join_or_create : String → Bytes → SystemMessage
  leave_room list_rooms : SystemMessage
  room_list : List RoomListEntry → SystemMessage
  -- data
  room_state : Bytes → SystemMessage
  -- room_id, session_id
  room_joined : RoomId → String → SystemMessage
  -- code, message
  error : ℕ → String → SystemMessage

pub data Payload : Type 0 where
  system : SystemMessage → Payload
  game : Bytes → Payload

pub record Envelope : Type 0 where
  pub seq : ℕ
  pub timestamp : ℕ
  pub channel : Channel
  pub payload : Payload
