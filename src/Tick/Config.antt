-- ===== src/Tick/Config.antt =====
-- The configuration made safe, and the length of a tick.
use archforge.Prelude.{
  ℕ, ◌+◌, ◌*◌, ◌^◌, ◌≤◌, ◌<◌, ◌≡◌, refl, false, arith, ltb, if◌then◌else◌, Bool-cases, inl, inr,
}
use native.Mathlib.Nat.{div-add-mod, mod-lt}
use archforge.Tick.{Float, TickConfig, max_tick_rate_hz, period, clamp, validated}

-- What the clamping needs of `<` on floats: it holds of no equal pair, and not of 1 and 0.
pub record IsOrder (f : Float) : Type 0 where
  pub irrefl : (x : f.Num) → f.lt x x ≡ false
  pub zero_one : f.lt f.one f.zero ≡ false

-- Neither below 0 nor above 1.
abbrev pub IsFraction : (f : Float) → f.Num → Type 0
IsFraction f x = (f.lt x f.zero ≡ false) × (f.lt f.one x ≡ false)

clamp-IsFraction : (f : Float) (x : f.Num) → IsOrder f → IsFraction f (clamp f x f.zero f.one)
unfolding clamp
clamp-IsFraction f x o = ground (arith, o.irrefl f.zero, o.irrefl f.one, o.zero_one)

-- A validated configuration has a rate of at most 128 Hz, thresholds that are neither below 0 nor above
-- 1, and a warning threshold that is not above the critical one; the rate is the one that was asked for
-- if that is allowed, and the policy is kept. A NaN, which compares with nothing, is neither below 0 nor
-- above 1: as a threshold it is let through.
pub validated-IsSafe :
    (f : Float) (c : TickConfig f)
    → IsOrder f
    → let d = validated c in
      (d.tick_rate_hz ≤ max_tick_rate_hz)
      × IsFraction f d.budget_warn_threshold
      × IsFraction f d.budget_critical_threshold
      × (f.lt d.budget_critical_threshold d.budget_warn_threshold ≡ false)
      × (d.tick_rate_hz ≡ (if ltb max_tick_rate_hz c.tick_rate_hz then 128 else c.tick_rate_hz))
      × (d.policy ≡ c.policy)
unfolding validated
validated-IsSafe f c o =
    let warn = clamp f c.budget_warn_threshold f.zero f.one in
    let critical = clamp f c.budget_critical_threshold f.zero f.one in
    let hw = clamp-IsFraction f c.budget_warn_threshold o in
    let hc = clamp-IsFraction f c.budget_critical_threshold o in
    elim (Bool-cases (f.lt critical warn)) [
      | inl above ↦ rw above (ground arith, hc, hc, o.irrefl critical, refl, refl)
      | inr fits ↦ rw fits (ground arith, hw, hc, fits, refl, refl)
    ]

clamp_idem : (f : Float) (x : f.Num) → IsFraction f x → clamp f x f.zero f.one ≡ x
unfolding clamp
clamp_idem f x h = ground arith

validated_fixed :
    (f : Float) (d : TickConfig f)
    → d.tick_rate_hz ≤ max_tick_rate_hz
    → IsFraction f d.budget_warn_threshold
    → IsFraction f d.budget_critical_threshold
    → f.lt d.budget_critical_threshold d.budget_warn_threshold ≡ false
    → validated d ≡ d
unfolding validated
validated_fixed f d rate warn critical order = ground (
  arith,
  clamp_idem f d.budget_warn_threshold warn,
  clamp_idem f d.budget_critical_threshold critical,
)

-- Validating twice is validating once.
pub validated_idem :
    (f : Float) (c : TickConfig f) → IsOrder f → validated (validated c) ≡ validated c
validated_idem f c o =
    let (rate, warn, critical, order, _, _) = validated-IsSafe f c o in
    validated_fixed f (validated c) rate warn critical order

-- A tick lasts a second over the rate, to the nearest nanosecond.
pub period_close :
    (r : ℕ) → 0 < r → (2 * r * period r ≤ 2 * 10 ^ 9 + r) × (2 * 10 ^ 9 < 2 * r * period r + r)
unfolding period
period_close r h =
    let a : ℕ = 2 * 10 ^ 9 + r in
    let b : ℕ = 2 * r in omega (arith, div-add-mod a b, mod-lt a {m = b} (omega arith))
