-- ===== src/Tick/Deadline.antt =====
-- When the next tick is due, by the policy.
use archforge.Prelude.{
  ℕ, suc, ◌+◌, ◌-◌, ◌*◌, ◌/◌, ◌^◌, ◌≤◌, ◌<◌, ◌≡◌, ◌∙◌, refl, sym, subst, ap, some, arith, ltb, leb,
  if◌then◌else◌, Bool-cases, inl, inr,
}
use native.Mathlib.Decide.{dec_lt}
use native.Mathlib.Nat.{div-add-mod, mod-lt, mod-eq_of_lt}
use archforge.Tick.{
  Float, TickScheduler, TickInfo, skip, catch_up, behind, plan, fire, wait_for_tick, add_u64,
}
use archforge.Tick.Ticks.{Runs, wait-fire}

-- The whole ticks in a delay.
behind_floor :
    (late dur : ℕ)
    → 0 < dur
    → late < 2 ^ 64
    → dur < 2 ^ 64
    → (behind late dur * dur ≤ late) × (late < suc (behind late dur) * dur)
unfolding behind
behind_floor late dur h k l =
    rw (mod-eq_of_lt k, mod-eq_of_lt l)
      (omega (arith, div-add-mod late dur, mod-lt late {m = dur} h))

-- Under `Skip`, with the test for an overrun: how many ticks are reported as skipped.
plan-skip :
    (next now dur : ℕ)
    → 0 < dur
    → now - next < 2 ^ 64
    → dur < 2 ^ 64
    → let over = ltb (dur / 10) (now - next) in
      let (deadline, skipped) = plan skip over (now - next) next now dur in
      (deadline ≡ now + dur)
      × (now < deadline)
      × (skipped * dur ≤ now - next)
      × (if over then now - next < suc skipped * dur else (skipped ≡ 0))
unfolding plan
plan-skip next now dur h k l = ground (arith, behind_floor (now - next) dur h k l)

le_of_mul_lt : (q m d : ℕ) → q * d < suc m * d → q ≤ m
le_of_mul_lt q m d h = elim (dec_lt m q) [
  | yes more ↦ absurd (omega (arith, mul_mono (suc m) q d more))
  | no fits ↦ omega arith
]
  where
    mul_mono : (a b c : ℕ) → a ≤ b → a * c ≤ b * c
    mul_mono a b c h = grind arith

-- Whether a delay is within `m` whole periods.
behind-le :
    (late dur m : ℕ)
    → 0 < dur
    → late < 2 ^ 64
    → dur < 2 ^ 64
    → leb (behind late dur) m ≡ ltb late (suc m * dur)
behind-le late dur m h k l =
    let (above, below) = behind_floor late dur h k l in
    elim (dec_lt late (suc m * dur)) [
      | yes early ↦
          let fits = le_of_mul_lt (behind late dur) m dur (omega (arith, above)) in
          ground (arith, fits, early)
      | no late_by ↦
          let more : m < behind late dur =
            le_of_mul_lt (suc m) (behind late dur) dur (omega (arith, below)) in
          ground (arith, more, late_by)
    ]

-- Under `CatchUp`, with that test: which wake-ups are in reach.
plan-catch_up :
    (max_catchup next now dur : ℕ)
    → 0 < dur
    → now - next < 2 ^ 64
    → dur < 2 ^ 64
    → let late = now - next in
      let in_reach = ltb late (suc max_catchup * dur) in
      let (deadline, skipped) =
        plan (catch_up max_catchup) (ltb (dur / 10) late) late next now dur in
      (deadline ≡ (if in_reach then next + dur else now + dur))
      × (skipped ≡ (if in_reach then 0 else behind late dur - max_catchup))
unfolding plan
plan-catch_up max_catchup next now dur h k l =
    let late = now - next in
    let one : dur ≤ suc max_catchup * dur = omega arith in
    ground (arith, behind-le late dur max_catchup h k l, one)

-- The test for an overrun divides a `Duration` by ten, which rounds down.
tenth : (late dur : ℕ) → ltb (dur / 10) late ≡ ltb dur (10 * late)
tenth late dur = ground (arith, div-add-mod dur 10, mod-lt dur {m = 10} (omega arith))

within_next :
    (skipped late dur : ℕ)
    → 0 < dur
    → (if ltb (dur / 10) late then late < suc skipped * dur else (skipped ≡ 0))
    → late < suc skipped * dur
within_next skipped late dur h top =
    ground (arith, div-add-mod dur 10, mod-lt dur {m = 10} (omega arith), top)

-- Under `CatchUp`: the ticks that are reported as skipped.
abbrev Counted : ℕ → ℕ → ℕ → ℕ → Type 0
Counted most late dur skipped =
    if ltb late (suc most * dur)
    then (skipped ≡ 0)
    else (((skipped + most) * dur ≤ late) × (late < suc (skipped + most) * dur))

counted :
    (most late dur skipped : ℕ)
    → 0 < dur
    → late < 2 ^ 64
    → dur < 2 ^ 64
    → skipped ≡ (if ltb late (suc most * dur) then 0 else behind late dur - most)
    → Counted most late dur skipped
counted most late dur skipped h k l e = elim (Bool-cases (ltb late (suc most * dur))) [
  | inl near ↦ rw near (ground (arith, e, near))
  | inr far ↦
      let more = behind-le late dur most h k l in
      let whole : skipped + most ≡ behind late dur = ground (arith, e, far, more) in
      rw far (
        subst (λ w. (w * dur ≤ late) × (late < suc w * dur)) (sym whole)
          (behind_floor late dur h k l))
]

module _ {f : Float} where
  -- What a wake-up at `now` tells and leaves: the next deadline; an overrun, if it is more than a
  -- tenth of a period late; and the skipped ticks, which are told and added to the metrics.
  abbrev pub Wakes : TickScheduler f → ℕ → ℕ → ℕ → ℕ → TickScheduler f → TickInfo → Type 0
  Wakes s next dur now deadline s' info =
      (s'.next_tick ≡ some deadline)
      × (info.overrun ≡ ltb dur (10 * (now - next)))
      × (s'.metrics.total_skipped ≡ add_u64 s.metrics.total_skipped info.ticks_skipped)

  -- Under `Skip`, a scheduler that ticks returns from `wait_for_tick` at a wake-up, however late. The
  -- next tick is due a whole period from then; the ticks reported as skipped are as many as whole
  -- periods have gone by since the tick was due; and it is reported as an overrun if it is late by
  -- more than a tenth of a period. This holds for delays and periods of less than 2 ^ 64 nanoseconds.
  pub wait_for_tick-skip :
      (s : TickScheduler f) (next dur now start : ℕ)
      → Runs s next dur
      → s.config.policy ≡ skip
      → 0 < dur
      → now - next < 2 ^ 64
      → dur < 2 ^ 64
      → (s' : TickScheduler f) × (info : TickInfo) × (wait_for_tick s now start ≡ some (s', info))
        × Wakes s next dur now (now + dur) s' info
        × (info.ticks_skipped * dur ≤ now - next)
        × (now - next < suc info.ticks_skipped * dur)
  unfolding fire
  wait_for_tick-skip s next dur now start r policy h k l =
      let late = now - next in
      let (due, later, floor, top) = plan-skip next now dur h k l in
      let same = ap (λ p. plan p (ltb (dur / 10) late) late next now dur) policy in
      (
        (fire s next dur now start).0,
        (fire s next dur now start).1,
        wait-fire s next dur now start r,
        (ap (λ x. some x.0) same ∙ ap some due, tenth late dur, refl),
        subst (λ (x : ℕ × ℕ). x.1 * dur ≤ late) (sym same) floor,
        subst (λ (x : ℕ × ℕ). late < suc x.1 * dur) (sym same)
            (within_next (plan skip (ltb (dur / 10) late) late next now dur).1 late dur h top),
      )

  -- Under `CatchUp`, a scheduler that ticks returns from `wait_for_tick` at a wake-up, however late. A
  -- wake-up that is late by less than `max_catchup + 1` periods skips no tick, and the next one is due a
  -- period after the one that was missed. A later one starts afresh from now, as under `Skip`: the
  -- missed ticks are not run, and those reported as skipped are `max_catchup` fewer than whole periods
  -- have gone by. It is reported as an overrun if it is late by more than a tenth of a period. This
  -- holds for delays and periods of less than 2 ^ 64 nanoseconds.
  pub wait_for_tick-catch_up :
      (s : TickScheduler f) (next dur now start max_catchup : ℕ)
      → Runs s next dur
      → s.config.policy ≡ catch_up max_catchup
      → 0 < dur
      → now - next < 2 ^ 64
      → dur < 2 ^ 64
      → let in_reach = ltb (now - next) (suc max_catchup * dur) in
        (s' : TickScheduler f) × (info : TickInfo) × (wait_for_tick s now start ≡ some (s', info))
        × Wakes s next dur now (if in_reach then next + dur else now + dur) s' info
        × (if in_reach
            then info.ticks_skipped ≡ 0
            else (((info.ticks_skipped + max_catchup) * dur ≤ now - next)
                × (now - next < suc (info.ticks_skipped + max_catchup) * dur)))
  unfolding fire
  wait_for_tick-catch_up s next dur now start max_catchup r policy h k l =
      let late = now - next in
      let over = ltb (dur / 10) late in
      let (due, skipped) = plan-catch_up max_catchup next now dur h k l in
      let same = ap (λ p. plan p over late next now dur) policy in
      (
        (fire s next dur now start).0,
        (fire s next dur now start).1,
        wait-fire s next dur now start r,
        (ap (λ x. some x.0) same ∙ ap some due, tenth late dur, refl),
        subst (λ (x : ℕ × ℕ). Counted max_catchup late dur x.1) (sym same)
            (counted max_catchup late dur (plan (catch_up max_catchup) over late next now dur).1 h k
              l skipped),
      )
