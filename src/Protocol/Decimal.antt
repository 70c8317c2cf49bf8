-- ===== src/Protocol/Decimal.antt =====
-- Numbers as text: `str::parse::<u64>` of the standard library, and how it reads back what `Display`
-- prints.
use Prim.Native.Char.{Char, code}
use Prim.Native.String.{String}
use archforge.Prelude.{
  ℕ, zero, suc, ◌+◌, ◌-◌, ◌*◌, ◌/◌, ◌%◌, ◌^◌, ◌<◌, ◌≡◌, refl, ap, ◌∙◌, ◌==◌, ltb, leb, Bool, true,
  false, ◌&&◌, inl, inr, arith, holds_to, holds_to_lem, Bool-cases, Option, none, some,
  if◌then◌else◌,
}
use native.Mathlib.Omega.{pow_step}
use archforge.Protocol.Text.{digit, digits, decimal}

abbrev pub is_digit : Char → Bool
is_digit c = leb 48 (code c) && leb (code c) 57

-- The number that the digits of a text spell after those of `n`, unless it is no `u64` or there is
-- something else in the text.
unfoldable pub parse_digits : ℕ → String → Option ℕ
parse_digits n String.[] = some n
parse_digits n (String.◌∷◌ c s) =
    let m = n * 10 + (code c - 48) in
    let rest = parse_digits m s in if is_digit c && ltb m (2 ^ 64) then rest else none

-- The digits of a number: at least one.
unfoldable pub parse_some : String → Option ℕ
unfolding parse_digits
parse_some String.[] = none
parse_some (String.◌∷◌ c s) = parse_digits 0 (String.◌∷◌ c s)

-- A plus sign may stand in front.
unfoldable pub parse_u64 : String → Option ℕ
unfolding parse_some
parse_u64 String.[] = none
parse_u64 (String.◌∷◌ c s) = if code c == 43 then parse_some s else parse_some (String.◌∷◌ c s)

digit_ok : ℕ → Bool
digit_ok n = is_digit (digit n) && code (digit n) - 48 == n

digit_ok-parts :
    (n : ℕ) → digit_ok n ≡ true → (is_digit (digit n) ≡ true) × (code (digit n) - 48 ≡ n)
unfolding digit_ok
digit_ok-parts n h = ground (arith, h)

digit-code : (n : ℕ) → n < 10 → (is_digit (digit n) ≡ true) × (code (digit n) - 48 ≡ n)
digit-code n h =
    let sound : digit_ok n ≡ true =
      holds_to_lem digit_ok 9 n (omega arith) (unfold holds_to digit_ok digit in refl) in
    digit_ok-parts n sound

digit-parse :
    (m k n : ℕ) (rest : String)
    → k < 10
    → m * 10 + k ≡ n
    → n < 2 ^ 64
    → parse_digits m (String.◌∷◌ (digit k) rest) ≡ parse_digits n rest
unfolding parse_digits
digit-parse m k n rest h e small =
    let (isd, val) = digit-code k h in
    let fits : ltb (m * 10 + k) (2 ^ 64) ≡ true = ground (arith, e, small) in
    rw (isd, val, fits) (ap (λ x. parse_digits x rest) e)

digits-parse :
    (fuel n : ℕ) (rest : String)
    → n < 10 ^ fuel
    → n < 2 ^ 64
    → parse_digits 0 (digits fuel n rest) ≡ parse_digits n rest
unfolding digits
digits-parse zero n rest h small = ap (λ k. parse_digits k rest) (omega (arith, h))
digits-parse (suc fuel) n rest h small = elim (Bool-cases (ltb n 10)) [
  | inl one ↦ rw one (digit-parse 0 n n rest (ground (arith, one)) (omega arith) small)
  | inr more ↦
      let less : n / 10 < 10 ^ fuel = omega (arith, h, pow_step 10 fuel) in
      rw more (
        digits-parse fuel (n / 10) (String.◌∷◌ (digit (n % 10)) rest) less (omega arith)
        ∙ digit-parse (n / 10) (n % 10) n rest (omega arith) (omega arith) small)
]

-- A text that begins with a digit.
abbrev Begins : String → Type 0
Begins String.[] = ⊥
Begins (String.◌∷◌ c s) = is_digit c ≡ true

digits-Begins : (fuel n : ℕ) (rest : String) → Begins rest → Begins (digits fuel n rest)
unfolding digits
digits-Begins zero n rest h = h
digits-Begins (suc fuel) n rest h = elim (Bool-cases (ltb n 10)) [
  | inl one ↦ rw one (digit-code n (ground (arith, one))).0
  | inr more ↦ rw more (
      digits-Begins fuel (n / 10) (String.◌∷◌ (digit (n % 10)) rest)
        (digit-code (n % 10) (omega arith)).0)
]

decimal-Begins : (n : ℕ) → Begins (decimal n)
unfolding decimal digits
decimal-Begins n = elim (Bool-cases (ltb n 10)) [
  | inl one ↦ rw one (digit-code n (ground (arith, one))).0
  | inr more ↦ rw more (
      digits-Begins 19 (n / 10) (String.◌∷◌ (digit (n % 10)) "")
        (digit-code (n % 10) (omega arith)).0)
]

parse_u64-Begins : (s : String) → Begins s → parse_u64 s ≡ parse_digits 0 s
unfolding parse_u64 parse_some
parse_u64-Begins String.[] h = absurd h
parse_u64-Begins (String.◌∷◌ c s) h = let sign : code c == 43 ≡ false = ground (arith, h) in rw sign

-- What is printed of a `u64` is read back as that number: the twenty steps of `decimal` are enough.
pub parse_u64-decimal : (n : ℕ) → n < 2 ^ 64 → parse_u64 (decimal n) ≡ some n
unfolding decimal parse_digits
parse_u64-decimal n h =
    parse_u64-Begins (decimal n) (decimal-Begins n) ∙ digits-parse 20 n "" (omega (arith, h)) h
