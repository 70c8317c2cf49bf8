-- ===== src/Tick.antt =====
-- crates/arcforge-tick/src/lib.rs: the tick scheduler of a room. `Duration` and `Instant` are
-- nanoseconds; the clock's readings and the random jitter are arguments of the calls that take them.
-- Floats are a parameter with the operations that the code uses. The counters are `u64` and wrap.
pub mod Config
pub mod Deadline
pub mod Ticks
use archforge.Prelude.{
  ℕ, suc, ◌+◌, ◌-◌, ◌*◌, ◌/◌, ◌%◌, ◌^◌, ◌≡◌, Bool, true, false, not, List, [], ◌∷◌, Option, none,
  some, ltb, leb, ◌==◌, if◌then◌else◌,
}
use mathlib.Core.Option

abbrev pub Duration : Type 0
Duration = ℕ

abbrev pub Instant : Type 0
Instant = ℕ

-- `f64`, as far as the scheduler uses it.
pub record Float : Type 1 where
  pub Num : Type 0
  pub zero : Num
  pub one : Num
  pub eighty_percent : Num
  pub alpha : Num
  pub lt : Num → Num → Bool
  pub add : Num → Num → Num
  pub sub : Num → Num → Num
  pub mul : Num → Num → Num
  pub div : Num → Num → Num
  pub as_secs : Duration → Num
  pub from_secs : Num → Duration

pub data TickPolicy : Type 0 where
  skip : TickPolicy
  catch_up : ℕ → TickPolicy
  drop : TickPolicy

pub record TickConfig (f : Float) : Type 0 where
  pub tick_rate_hz : ℕ
  pub policy : TickPolicy
  pub budget_warn_threshold : f.Num
  pub budget_critical_threshold : f.Num
  pub metrics_enabled : Bool
  pub initial_jitter_us : ℕ

abbrev pub max_tick_rate_hz : ℕ
max_tick_rate_hz = 128

-- `Duration::from_secs_f64(1.0 / rate as f64)`: the nearest number of nanoseconds. Up to 128 Hz, the
-- most that a scheduler has, no rate lies between two of them, and the float's error is too small
-- to reach another one.
unfoldable pub period : ℕ → Duration
period r = (2 * 10 ^ 9 + r) / (2 * r)

-- `u64` of a number of nanoseconds.
abbrev pub as_u64 : ℕ → ℕ
as_u64 n = n % 2 ^ 64

-- `x += n` on a `u64`.
abbrev pub add_u64 : ℕ → ℕ → ℕ
add_u64 x n = (x + n) % 2 ^ 64

-- `f64::clamp`.
unfoldable pub clamp : (f : Float) → f.Num → f.Num → f.Num → f.Num
clamp f x lo hi = if f.lt x lo then lo else if f.lt hi x then hi else x

module _ {f : Float} where
  unfoldable pub default_config : TickConfig f
  default_config = record {
    tick_rate_hz = 0;
    policy = skip;
    budget_warn_threshold = f.eighty_percent;
    budget_critical_threshold = f.one;
    metrics_enabled = true;
    initial_jitter_us = 2000;
  }

  unfoldable pub config_with_rate : ℕ → TickConfig f
  unfolding default_config
  config_with_rate rate = record default_config { tick_rate_hz = rate }

  unfoldable pub validated : TickConfig f → TickConfig f
  unfolding clamp
  validated c =
      let warn = clamp f c.budget_warn_threshold f.zero f.one in
      let critical = clamp f c.budget_critical_threshold f.zero f.one in
      record c {
        tick_rate_hz =
            if ltb max_tick_rate_hz c.tick_rate_hz then max_tick_rate_hz else c.tick_rate_hz;
        budget_warn_threshold = if f.lt critical warn then critical else warn;
        budget_critical_threshold = critical;
      }

  unfoldable pub tick_duration : TickConfig f → Option Duration
  unfolding period
  tick_duration c = if c.tick_rate_hz == 0 then none else some (period c.tick_rate_hz)

pub record TickInfo : Type 0 where
  pub tick : ℕ
  pub dt : Duration
  pub overrun : Bool
  pub ticks_skipped : ℕ

pub record TickMetrics (f : Float) : Type 0 where
  pub total_ticks : ℕ
  pub total_overruns : ℕ
  pub total_skipped : ℕ
  pub avg_tick_time : Duration
  pub max_tick_time : Duration
  pub budget_utilization : f.Num

pub record TickScheduler (f : Float) : Type 0 where
  pub config : TickConfig f
  pub tick_duration : Option Duration
  pub tick_count : ℕ
  pub next_tick : Option Instant
  pub tick_start : Option Instant
  pub paused : Bool
  pub metrics : TickMetrics f

-- How many whole ticks a wake-up is late.
unfoldable pub behind : Duration → Duration → ℕ
behind late_by dur = as_u64 late_by / as_u64 dur

-- The `match` on the policy: the next deadline, and the ticks skipped.
unfoldable pub plan : TickPolicy → Bool → Duration → Instant → Instant → Duration → Instant × ℕ
unfolding behind
plan skip overrun late_by next now dur = (now + dur, if overrun then behind late_by dur else 0)
plan (catch_up max_catchup) overrun late_by next now dur =
    if overrun
    then (
      if leb (behind late_by dur) max_catchup then next + dur else now + dur,
      behind late_by dur - max_catchup,
    )
    else (next + dur, 0)
plan drop overrun late_by next now dur = (next + dur, 0)

module _ {f : Float} where
  -- `now` is the clock, `jitter` the random number of microseconds.
  unfoldable pub new : TickConfig f → Instant → ℕ → TickScheduler f
  unfolding validated tick_duration
  new config now jitter =
      let c = validated config in
      record {
        config = c;
        tick_duration = tick_duration c;
        tick_count = 0;
        next_tick =
            Option.map (λ d. now + d + (if ltb 0 c.initial_jitter_us then jitter * 1000 else 0))
              (tick_duration c);
        tick_start = none;
        paused = false;
        metrics = record {
          total_ticks = 0;
          total_overruns = 0;
          total_skipped = 0;
          avg_tick_time = 0;
          max_tick_time = 0;
          budget_utilization = f.zero;
        };
      }

  -- `wait_for_tick` when the sleep until `next` ends at `now`; `start` is the clock just after.
  unfoldable pub fire :
      TickScheduler f → Instant → Duration → Instant → Instant → TickScheduler f × TickInfo
  unfolding plan
  fire s next dur now start =
      let late_by = now - next in
      let overrun = ltb (dur / 10) late_by in
      let (deadline, skipped) = plan s.config.policy overrun late_by next now dur in
      let count = add_u64 s.tick_count 1 in
      (
        record s {
          tick_count = count;
          tick_start = some start;
          next_tick = some deadline;
          metrics = record s.metrics {
            total_overruns =
                if overrun then add_u64 s.metrics.total_overruns 1 else s.metrics.total_overruns;
            total_skipped = add_u64 s.metrics.total_skipped skipped;
            total_ticks = add_u64 s.metrics.total_ticks 1;
          };
        },
        record { tick = count; dt = dur; overrun = overrun; ticks_skipped = skipped },
      )

  -- `none` where the source waits for ever.
  unfoldable pub wait_for_tick :
      TickScheduler f → Instant → Instant → Option (TickScheduler f × TickInfo)
  unfolding fire
  wait_for_tick s now start = elim s.next_tick [
    | none ↦ none
    | some next ↦ elim s.tick_duration [
      | none ↦ none
      | some dur ↦ if s.paused then none else some (fire s next dur now start)
    ]
  ]

  -- The two lines of `record_tick_end` that update the metrics.
  unfoldable pub update_metrics : TickMetrics f → Duration → TickMetrics f
  update_metrics m elapsed =
      let prev = f.as_secs m.avg_tick_time in
      let curr = f.as_secs elapsed in
      record m {
        max_tick_time = if ltb m.max_tick_time elapsed then elapsed else m.max_tick_time;
        avg_tick_time = f.from_secs (f.add (f.mul prev (f.sub f.one f.alpha)) (f.mul curr f.alpha));
      }

  unfoldable pub record_utilization : TickMetrics f → Option Duration → Duration → TickMetrics f
  record_utilization m none elapsed = m
  record_utilization m (some budget) elapsed = record m {
    budget_utilization = f.div (f.as_secs elapsed) (f.as_secs budget);
  }

  unfoldable pub record_tick_end : TickScheduler f → Instant → TickScheduler f
  unfolding update_metrics record_utilization
  record_tick_end s now = elim s.tick_start [
    | none ↦ s
    | some start ↦
        let elapsed = now - start in
        let m = record_utilization s.metrics s.tick_duration elapsed in
        record s {
          tick_start = none;
          metrics = if s.config.metrics_enabled then update_metrics m elapsed else m;
        }
  ]

  unfoldable pub pause : TickScheduler f → TickScheduler f
  pause s = if not s.paused then record s { paused = true } else s

  unfoldable pub resume : TickScheduler f → Instant → TickScheduler f
  resume s now =
      if s.paused
      then record s {
        paused = false;
        next_tick = elim s.tick_duration [ none ↦ s.next_tick | some dur ↦ some (now + dur) ];
      }
      else s

  unfoldable pub is_event_driven : TickScheduler f → Bool
  is_event_driven s = elim s.tick_duration [ none ↦ true | some dur ↦ false ]
