-- ===== src/Room/Logic.antt =====
-- logic.rs: the interface that a game implements. A game's methods are taken to return (a panic in
-- them is not modelled). `&mut State` is a state passed in and returned.
use archforge.Prelude.{Bool, List, []}
use archforge.Protocol.{PlayerId, Recipient}
use archforge.Prelude.{String, Result, ok}
use archforge.Room.State.{RoomConfig, Duration}

pub record GameLogic : Type 1 where
  pub Config : Type 0
  pub State : Type 0
  pub ClientMessage : Type 0
  pub ServerMessage : Type 0
  pub default_config : Config
  pub init : Config → List PlayerId → State
  pub handle_message : State → PlayerId → ClientMessage → State × List (Recipient × ServerMessage)
  pub is_finished : State → Bool
  pub tick : State → Duration → State × List (Recipient × ServerMessage)
  pub validate_message : State → PlayerId → ClientMessage → Result String (Unit {0})
  pub on_player_disconnect : State → PlayerId → State × List (Recipient × ServerMessage)
  pub on_player_reconnect : State → PlayerId → State × List (Recipient × ServerMessage)
  pub room_config : RoomConfig

-- The trait's default methods: nothing happens, and every message is accepted.
module _ {S M : Type 0} where
  abbrev pub default_tick : S → Duration → S × List (Recipient × M)
  default_tick s dt = (s, [])

  abbrev pub default_validate_message : S → PlayerId → M → Result String (Unit {0})
  default_validate_message s p m = ok tt

  abbrev pub default_on_player : S → PlayerId → S × List (Recipient × M)
  default_on_player s p = (s, [])
