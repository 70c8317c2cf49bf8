-- ===== src/Protocol/Text.antt =====
-- How ids are printed: `Display` of `PlayerId` and `RoomId`, with `u64` in decimal digits. A number
-- has at most `fuel` digits; twenty are enough for a `u64`.
use Prim.Native.Char.{Char}
use Prim.Native.String.{String, ◌++◌ as ◌<>◌}
use archforge.Prelude.{ℕ, zero, suc, ◌/◌, ◌%◌, ◌==◌, ltb, if◌then◌else◌}
use archforge.Protocol.{PlayerId, RoomId}

unfoldable pub digit : ℕ → Char
digit n =
    if n == 0
    then "0"
    else if n == 1
    then "1"
    else if n == 2
    then "2"
    else if n == 3
    then "3"
    else if n == 4
    then "4"
    else if n == 5
    then "5"
    else if n == 6
    then "6"
    else if n == 7
    then "7"
    else if n == 8
    then "8"
    else "9"

-- The digits of `n` in front of `rest`.
unfoldable pub digits : ℕ → ℕ → String → String
unfolding digit
digits zero n rest = rest
digits (suc fuel) n rest =
    let more = digits fuel (n / 10) (String.◌∷◌ (digit (n % 10)) rest) in
    if ltb n 10 then String.◌∷◌ (digit n) rest else more

unfoldable pub decimal : ℕ → String
unfolding digits
decimal n = digits 20 n ""

unfoldable pub player_text : PlayerId → String
unfolding decimal
player_text p = "P-" <> decimal p

unfoldable pub room_text : RoomId → String
unfolding decimal
room_text r = "R-" <> decimal r
