-- ===== src/Tick/Ticks.antt =====
-- Many ticks in a row: their numbers, the metrics, the grid of `Drop`, and the pause.
use archforge.Prelude.{
  ℕ, suc, ◌+◌, ◌-◌, ◌*◌, ◌/◌, ◌%◌, ◌^◌, ◌<◌, ◌≡◌, refl, ap, subst, ◌∙◌, false, List, [], ◌∷◌,
  Option, none, some, arith, ltb, if◌then◌else◌, length,
}
use archforge.Tick.{period as period_of}
use archforge.Tick.{
  new, TickConfig, Float, TickScheduler, TickInfo, drop, Duration, Instant, plan, fire, pause,
  resume, wait_for_tick, record_tick_end,
}

module _ {f : Float} where
  -- A scheduler that ticks: with a period and a deadline, and not paused.
  pub record Runs (s : TickScheduler f) (next : Instant) (dur : Duration) : Type 0 where
    pub period : s.tick_duration ≡ some dur
    pub deadline : s.next_tick ≡ some next
    pub going : s.paused ≡ false

  -- One call of `wait_for_tick` for each reading of the clock, with the ticks that they return.
  unfoldable pub ticks :
      TickScheduler f → List (Instant × Instant) → Option (TickScheduler f × List TickInfo)
  ticks s [] = some (s, [])
  ticks s ((now, start) ∷ ws) = elim (wait_for_tick s now start) [
    | none ↦ none
    | some (s', info) ↦ elim (ticks s' ws) [
      | none ↦ none
      | some (s'', infos) ↦ some (s'', info ∷ infos)
    ]
  ]

-- Ticks with the numbers from `n` on, each of the length `dur`.
abbrev pub Numbered : ℕ → Duration → List TickInfo → Type 0
Numbered n dur [] = Unit {0}
Numbered n dur (i ∷ is) = (i.tick ≡ n) × (i.dt ≡ dur) × Numbered (suc n) dur is

abbrev pub skipped_in : List TickInfo → ℕ
skipped_in [] = 0
skipped_in (i ∷ is) = i.ticks_skipped + skipped_in is

abbrev pub overruns_in : List TickInfo → ℕ
overruns_in [] = 0
overruns_in (i ∷ is) = (if i.overrun then 1 else 0) + overruns_in is

module _ {f : Float} where
  pub wait-fire :
      (s : TickScheduler f) (next : Instant) (dur : Duration) (now start : Instant)
      → Runs s next dur
      → wait_for_tick s now start ≡ some (fire s next dur now start)
  unfolding wait_for_tick
  wait-fire s next dur now start r = ground (arith, r.period, r.deadline, r.going)

  -- The deadline that a tick leaves.
  abbrev pub after : TickScheduler f → Instant → Duration → Instant → Instant
  after s next dur now =
      (plan s.config.policy (ltb (dur / 10) (now - next)) (now - next) next now dur).0

  fire-Runs :
      (s : TickScheduler f) (next : Instant) (dur : Duration) (now start : Instant)
      → Runs s next dur
      → Runs (fire s next dur now start).0 (after s next dur now) dur
  unfolding fire
  fire-Runs s next dur now start r = ground arith

  abbrev pub Told : TickScheduler f → ℕ → Duration → TickScheduler f → List TickInfo → Type 0
  Told s n dur s' infos =
      Numbered (suc s.tick_count) dur infos
      × (length infos ≡ n)
      × (s'.tick_count ≡ s.tick_count + n)
      × (s'.metrics.total_ticks ≡ (s.metrics.total_ticks + n) % 2 ^ 64)
      × (s'.metrics.total_overruns ≡ (s.metrics.total_overruns + overruns_in infos) % 2 ^ 64)
      × (s'.metrics.total_skipped ≡ (s.metrics.total_skipped + skipped_in infos) % 2 ^ 64)

  abbrev pub Fits : TickScheduler f → Type 0
  Fits s =
      (s.metrics.total_ticks < 2 ^ 64)
      × (s.metrics.total_overruns < 2 ^ 64)
      × (s.metrics.total_skipped < 2 ^ 64)

  fire-tick_count :
      (s : TickScheduler f) (next : Instant) (dur : Duration) (now start : Instant)
      → suc s.tick_count < 2 ^ 64
      → let (s', i) = fire s next dur now start in
        (s'.tick_count ≡ suc s.tick_count) × (i.tick ≡ suc s.tick_count) × (i.dt ≡ dur)
  unfolding fire
  fire-tick_count s next dur now start h = omega arith

  fire-metrics :
      (s : TickScheduler f) (next : Instant) (dur : Duration) (now start : Instant) (n a b : ℕ)
      → Fits s
      → let (s', i) = fire s next dur now start in
        (((s'.metrics.total_ticks + n) % 2 ^ 64) ≡ ((s.metrics.total_ticks + suc n) % 2 ^ 64))
        × (((s'.metrics.total_overruns + a) % 2 ^ 64)
            ≡ ((s.metrics.total_overruns + ((if i.overrun then 1 else 0) + a)) % 2 ^ 64))
        × (((s'.metrics.total_skipped + b) % 2 ^ 64)
            ≡ ((s.metrics.total_skipped + (i.ticks_skipped + b)) % 2 ^ 64))
  unfolding fire
  fire-metrics s next dur now start n a b fits = ground arith

  Told-cons :
      (s : TickScheduler f) (next : Instant) (dur : Duration) (now start : Instant)
      (infos : List TickInfo) (s' : TickScheduler f) (n : ℕ)
      → suc s.tick_count < 2 ^ 64
      → Fits s
      → Told (fire s next dur now start).0 n dur s' infos
      → Told s (suc n) dur s' ((fire s next dur now start).1 ∷ infos)
  Told-cons s next dur now start infos s' n h fits (numbered, len, count, total, overruns, skips) =
      let (c, t, d) = fire-tick_count s next dur now start h in
      let (mt, mo, ms) =
        fire-metrics s next dur now start n (overruns_in infos) (skipped_in infos) fits in
      (
        (t, d, subst (λ k. Numbered (suc k) dur infos) c numbered),
        ap suc len,
        omega arith,
        total ∙ mt,
        overruns ∙ mo,
        skips ∙ ms,
      )

  -- A scheduler that runs answers every call. Its ticks are numbered on from the last, each has the
  -- fixed length, whatever the clock does, and the metrics count the ticks, the overruns and the
  -- skipped ticks that were returned, modulo 2 ^ 64; as long as the number of ticks and the
  -- counters at the start are `u64`s.
  pub ticks-Told :
      (s : TickScheduler f) (next : Instant) (dur : Duration) (ws : List (Instant × Instant))
      → Runs s next dur
      → s.tick_count + length ws < 2 ^ 64
      → Fits s
      → (s' : TickScheduler f) × (infos : List TickInfo) × (ticks s ws ≡ some (s', infos))
        × Told s (length ws) dur s' infos
  unfolding ticks
  ticks-Told s next dur [] r h fits = (s, [], refl, omega arith)
  ticks-Told s next dur ((now, start) ∷ ws) r h fits =
      let one = fire s next dur now start in
      let (s', infos, rest, told) =
        ticks-Told one.0 (after s next dur now) dur ws (fire-Runs s next dur now start r)
          (unfold fire in omega arith) (unfold fire in ground arith) in
      (
        s',
        one.1 ∷ infos,
        rw (wait-fire s next dur now start r, ticks, rest) refl,
        Told-cons s next dur now start infos s' (length ws) (omega arith) fits told,
      )

  -- Under `Drop` the ticks keep to the grid of the first deadline: however late they were woken, the
  -- deadline after `n` ticks is `n` periods after the first.
  pub ticks_grid :
      (s : TickScheduler f) (next : Instant) (dur : Duration) (ws : List (Instant × Instant))
      → Runs s next dur
      → s.config.policy ≡ drop
      → (s' : TickScheduler f) × (infos : List TickInfo) × (ticks s ws ≡ some (s', infos))
        × (s'.next_tick ≡ some (next + length ws * dur))
  unfolding ticks
  ticks_grid s next dur [] r p = (s, [], refl, ground (arith, r.deadline))
  ticks_grid s next dur ((now, start) ∷ ws) r p =
      let one = fire s next dur now start in
      let on_grid : after s next dur now ≡ next + dur = unfold plan in ground arith in
      let runs : Runs one.0 (next + dur) dur =
        subst (λ x. Runs one.0 x dur) on_grid (fire-Runs s next dur now start r) in
      let (s', infos, rest, due) =
        ticks_grid one.0 (next + dur) dur ws runs (unfold fire in ground arith) in
      (
        s',
        one.1 ∷ infos,
        rw (wait-fire s next dur now start r, ticks, rest) refl,
        ground (arith, due),
      )

  -- Of a scheduler that runs: while it is paused, `wait_for_tick` never returns; pausing twice is
  -- pausing once; resumed at `later` it runs again, with the next tick due a whole period from
  -- `later`, however long the pause was; and to resume it when it is not paused changes nothing.
  pub pause-resume :
      (s : TickScheduler f) (next : Instant) (dur : Duration) (now start later : Instant)
      → Runs s next dur
      → (wait_for_tick (pause s) now start ≡ none)
        × (pause (pause s) ≡ pause s)
        × Runs (resume (pause s) later) (later + dur) dur
        × (resume s later ≡ s)
  unfolding wait_for_tick pause resume
  pause-resume s next dur now start later r =
      (ground arith, ground arith, ground arith, ground arith)

  -- A new scheduler runs unless its rate is 0: the first tick is due a period and the jitter after
  -- its making, and its length is that of the rate, or of 128 Hz if the rate is above.
  pub new-Runs :
      (c : TickConfig f) (now jitter : ℕ)
      → 0 < c.tick_rate_hz
      → let rate = if ltb 128 c.tick_rate_hz then 128 else c.tick_rate_hz in
        let wobble = if ltb 0 c.initial_jitter_us then jitter * 1000 else 0 in
        Runs (new c now jitter) (now + period_of rate + wobble) (period_of rate)
        × Fits (new c now jitter)
  unfolding new
  new-Runs c now jitter h = ground arith

  -- The end of a tick is recorded once: the second of two calls does nothing.
  pub record_tick_end_idem :
      (s : TickScheduler f) (now later : Instant)
      → record_tick_end (record_tick_end s now) later ≡ record_tick_end s now
  unfolding record_tick_end
  record_tick_end_idem s now later = ground arith
