-- ===== src/Session/Token.antt =====
-- `generate_token`: sixteen random bytes, an argument here, as lower-case hexadecimal digits.
use Prim.Native.Char.{Char, code}
use Prim.Native.String.{String}
use archforge.Prelude.{
  ℕ, suc, ◌+◌, ◌-◌, ◌*◌, ◌/◌, ◌%◌, ◌<◌, ◌≡◌, refl, List, [], ◌∷◌, arith, length, if◌then◌else◌, ltb,
  ◌==◌, ==_iff, true, holds_to, holds_to_lem,
}

-- The digit of a number below 16.
unfoldable pub hex_digit : ℕ → Char
hex_digit n =
    if n == 0
    then "0"
    else if n == 1
    then "1"
    else if n == 2
    then "2"
    else if n == 3
    then "3"
    else if n == 4
    then "4"
    else if n == 5
    then "5"
    else if n == 6
    then "6"
    else if n == 7
    then "7"
    else if n == 8
    then "8"
    else if n == 9
    then "9"
    else if n == 10
    then "a"
    else if n == 11
    then "b"
    else if n == 12
    then "c"
    else if n == 13
    then "d"
    else if n == 14
    then "e"
    else "f"

-- `format!("{b:02x}")` for each byte, collected.
unfoldable pub generate_token : List ℕ → String
unfolding hex_digit
generate_token [] = ""
generate_token (b ∷ bs) =
    String.◌∷◌ (hex_digit (b / 16)) (String.◌∷◌ (hex_digit (b % 16)) (generate_token bs))

abbrev pub chars : String → ℕ
chars String.[] = 0
chars (String.◌∷◌ c s) = suc (chars s)

-- The value of a digit.
hex_value : Char → ℕ
hex_value c = if ltb (code c) 58 then code c - 48 else code c - 87

-- The bytes that a text of digits spells.
unfoldable pub parse_hex : String → List ℕ
unfolding hex_value
parse_hex (String.◌∷◌ c (String.◌∷◌ d s)) = (hex_value c * 16 + hex_value d) ∷ parse_hex s
parse_hex _ = []

digit_table : holds_to (λ k. hex_value (hex_digit k) == k) 15 ≡ true
unfolding holds_to hex_value hex_digit
digit_table = refl

hex_value-hex_digit : (n : ℕ) → n < 16 → hex_value (hex_digit n) ≡ n
hex_value-hex_digit n h =
    (==_iff (hex_value (hex_digit n)) n).0
      (holds_to_lem (λ k. hex_value (hex_digit k) == k) 15 n (omega arith) digit_table)

abbrev pub AreBytes : List ℕ → Type 0
AreBytes [] = Unit {0}
AreBytes (b ∷ bs) = (b < 256) × AreBytes bs

chars-generate_token : (bs : List ℕ) → chars (generate_token bs) ≡ 2 * length bs
unfolding generate_token
chars-generate_token [] = refl
chars-generate_token (b ∷ bs) = omega (arith, chars-generate_token bs)

read_back : (bs : List ℕ) → AreBytes bs → parse_hex (generate_token bs) ≡ bs
unfolding parse_hex generate_token
read_back [] h = refl
read_back (b ∷ bs) h =
    ground (arith, hex_value-hex_digit (b / 16), hex_value-hex_digit (b % 16), read_back bs h.1)

-- The bytes can be read back from the token, so different bytes give different tokens; and a token
-- has two characters for each byte.
pub parse_hex-generate_token :
    (bs : List ℕ)
    → AreBytes bs
    → (parse_hex (generate_token bs) ≡ bs) × (chars (generate_token bs) ≡ 2 * length bs)
parse_hex-generate_token bs h = (read_back bs h, chars-generate_token bs)
