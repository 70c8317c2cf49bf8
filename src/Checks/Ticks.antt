-- ===== src/Checks/Ticks.antt =====
-- The tick scheduler, with hundredths for the floats.
use archforge.Prelude.{
  ℕ, suc, ◌+◌, ◌-◌, ◌*◌, ◌/◌, ◌≤◌, ◌<◌, ◌≡◌, refl, true, false, List, [], ◌∷◌, some, arith, ltb,
}
use archforge.Tick.{
  Float, TickPolicy, wait_for_tick, TickConfig, TickScheduler, TickInfo, max_tick_rate_hz,
  validated, new, catch_up, skip, drop, period,
}
use archforge.Tick.Config.{IsOrder, IsFraction, validated-IsSafe}
use archforge.Tick.Deadline.{Wakes, wait_for_tick-skip, wait_for_tick-catch_up}
use archforge.Tick.Ticks.{Runs, ticks, Told, ticks-Told, ticks_grid, new-Runs, Fits}

abbrev hundredths : Float
hundredths = record {
  Num = ℕ;
  zero = 0;
  one = 100;
  eighty_percent = 80;
  alpha = 5;
  lt = ltb;
  add = λ a b. a + b;
  sub = λ a b. a - b;
  mul = λ a b. a * b / 100;
  div = λ a b. 100 * a / b;
  as_secs = λ d. d / 10_000_000;
  from_secs = λ a. a * 10_000_000;
}

order : IsOrder hundredths
order = record { irrefl = λ x. ground arith; zero_one = refl }

-- A rate that is too high and thresholds the wrong way round.
abbrev wild : TickConfig hundredths
wild = record {
  tick_rate_hz = 500;
  policy = drop;
  budget_warn_threshold = 300;
  budget_critical_threshold = 50;
  metrics_enabled = true;
  initial_jitter_us = 2000;
}

validated-IsSafe_example :
    let d = validated wild in
    (d.tick_rate_hz ≤ max_tick_rate_hz)
    × IsFraction hundredths d.budget_warn_threshold
    × IsFraction hundredths d.budget_critical_threshold
    × (ltb d.budget_critical_threshold d.budget_warn_threshold ≡ false)
    × (d.tick_rate_hz ≡ 128)
    × (d.policy ≡ drop)
validated-IsSafe_example = validated-IsSafe hundredths wild order

abbrev scheduler : TickScheduler hundredths
scheduler = new wild 1_000_000 3

first : (Runs scheduler 8_815_500 7_812_500) × Fits scheduler
unfolding period
first = new-Runs wild 1_000_000 3 (omega arith)

abbrev wakes : List (ℕ × ℕ)
wakes = (8_900_000, 8_900_001) ∷ (30_000_000, 30_000_001) ∷ (32_000_000, 32_000_001) ∷ []

ticks-Told_example :
    (s' : TickScheduler hundredths) × (infos : List TickInfo) × (ticks scheduler wakes
      ≡ some (s', infos))
    × Told scheduler 3 7_812_500 s' infos
ticks-Told_example =
    ticks-Told scheduler 8_815_500 7_812_500 wakes first.0 (unfold new in omega arith) first.1

ticks_grid_example :
    (s' : TickScheduler hundredths) × (infos : List TickInfo) × (ticks scheduler wakes
      ≡ some (s', infos))
    × (s'.next_tick ≡ some (8_815_500 + 3 * 7_812_500))
ticks_grid_example =
    ticks_grid scheduler 8_815_500 7_812_500 wakes first.0 (unfold new validated in refl)

-- A scheduler with a deadline at 1000 and a period of 100.
abbrev waiting : TickPolicy → TickScheduler hundredths
waiting policy = record scheduler {
  config = record wild { policy = policy };
  tick_duration = some 100;
  next_tick = some 1000;
  paused = false;
}

waiting-Runs : (policy : TickPolicy) → Runs (waiting policy) 1000 100
waiting-Runs policy = record { period = refl; deadline = refl; going = refl }

-- Three and a half periods late.
wait_for_tick-skip_example :
    (s' : TickScheduler hundredths) × (info : TickInfo) × (wait_for_tick (waiting skip) 1350 1351
      ≡ some (s', info))
    × Wakes (waiting skip) 1000 100 1350 1450 s' info
    × (info.ticks_skipped * 100 ≤ 350)
    × (350 < suc info.ticks_skipped * 100)
wait_for_tick-skip_example =
    wait_for_tick-skip (waiting skip) 1000 100 1350 1351 (waiting-Runs skip) refl (omega arith)
      (omega arith) (omega arith)

-- With two allowed: the deadline is taken from now, and one tick is reported as skipped.
wait_for_tick-catch_up_example :
    (s' : TickScheduler hundredths) × (info : TickInfo) × (wait_for_tick
        (waiting (catch_up 2))
        1350
        1351
      ≡ some (s', info))
    × Wakes (waiting (catch_up 2)) 1000 100 1350 1450 s' info
    × (((info.ticks_skipped + 2) * 100 ≤ 350) × (350 < suc (info.ticks_skipped + 2) * 100))
wait_for_tick-catch_up_example =
    wait_for_tick-catch_up (waiting (catch_up 2)) 1000 100 1350 1351 2 (waiting-Runs (catch_up 2))
      refl (omega arith) (omega arith) (omega arith)

abbrev ticking : TickScheduler hundredths
ticking = record scheduler { tick_start = some 5 }
