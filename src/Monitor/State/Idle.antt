-- ===== src/Monitor/State/Idle.antt =====
-- The usage of the idle thread in src/Monitor/Monitor.c.
use taste_samx_rtems_runtime.Common.Word.{u32, sub64}
use taste_samx_rtems_runtime.Common.{
  refl, List, ℕ, if◌then◌else◌, ◌≡◌, false, ◌+◌, ◌∷◌, [], Bool, ◌≤◌, true, ◌<◌, ◌^◌, length, arith,
}
use taste_samx_rtems_runtime.Monitor.State.{Reals}

-- `Monitor_CPUUsageData`, with `benchmarking_ticks`.
pub record IdleUsage (R : Reals) : Type 0 where
  pub maximum_cpu_usage : R.Real
  pub minimum_cpu_usage : R.Real
  pub average_cpu_usage : R.Real
  pub benchmarking_ticks : ℕ

module _ (R : Reals) where
  -- The static variables at start.
  abbrev pub initial_usage : IdleUsage R
  initial_usage = record {
    maximum_cpu_usage = R.zero_real;
    minimum_cpu_usage = R.zero_real;
    average_cpu_usage = R.zero_real;
    benchmarking_ticks = 0;
  }

  -- `usage_percent`, from the percents and the thousandths that `_Timestamp_Divide` returns.
  abbrev pub usage_percent : ℕ → ℕ → R.Real
  usage_percent integer_val float_val =
      R.add (R.divide (R.of_nat float_val) (R.of_nat 1000)) (R.of_nat integer_val)

  -- The end of `cpu_usage_visitor`: the new extremes and the new average.
  unfoldable pub update_usage : ℕ → ℕ → IdleUsage R → IdleUsage R
  update_usage integer_val float_val s =
      let usage = usage_percent integer_val float_val in
      record s {
        minimum_cpu_usage =
            if R.is_less usage s.minimum_cpu_usage then usage else s.minimum_cpu_usage;
        maximum_cpu_usage =
            if R.is_less s.maximum_cpu_usage usage then usage else s.maximum_cpu_usage;
        average_cpu_usage = R.add s.average_cpu_usage (
            R.divide (R.subtract usage s.average_cpu_usage)
              (R.of_nat (u32 (s.benchmarking_ticks + 1))));
      }

  -- `Monitor_GetIdleCPUUsageData`
  unfoldable pub get_idle_cpu_usage_data : IdleUsage R → Bool × IdleUsage R
  get_idle_cpu_usage_data s = (true, s)

-- `uptime_at_last_reset` and `total_usage_time`.
pub record Times : Type 0 where
  pub uptime_at_last_reset : ℕ
  pub total_usage_time : ℕ

-- The times in `Monitor_Init`, where `uptime` is read.
unfoldable pub reset_times : ℕ → Times → Times
reset_times uptime t = record { uptime_at_last_reset = uptime; total_usage_time = 0 }

-- `divide` is `_Timestamp_Divide`: the percents and the thousandths of a percent.
module _ (R : Reals) (divide : ℕ → ℕ → ℕ × ℕ) where
  -- `cpu_usage_visitor` on the first idle thread, of which `used_time` and the uptime are read.
  unfoldable pub cpu_usage_visitor : ℕ → ℕ → Times × IdleUsage R → Times × IdleUsage R
  unfolding update_usage
  cpu_usage_visitor used_time uptime (t, s) =
      let total = sub64 uptime t.uptime_at_last_reset in
      let (integer_val, float_val) = divide used_time total in
      (record t { total_usage_time = total }, update_usage R integer_val float_val s)

  -- `Monitor_MonitoringTick`
  unfoldable pub monitoring_tick : ℕ → ℕ → Times × IdleUsage R → Times × IdleUsage R
  unfolding cpu_usage_visitor
  monitoring_tick used_time uptime s =
      let (t, s') = cpu_usage_visitor used_time uptime s in
      (t, record s' { benchmarking_ticks = u32 (s'.benchmarking_ticks + 1) })

  -- The ticks at these used times and uptimes, latest first, after `Monitor_Init` at some uptime.
  abbrev pub ticks : ℕ → Times → List (ℕ × ℕ) → Times × IdleUsage R
  ticks at_init t [] = (reset_times at_init t, initial_usage R)
  ticks at_init t ((used_time, uptime) ∷ rest) =
      monitoring_tick used_time uptime (ticks at_init t rest)

  -- The minimum that `Monitor_GetIdleCPUUsageData` returns.
  abbrev pub minimum_of : Times × IdleUsage R → R.Real
  minimum_of s = (get_idle_cpu_usage_data R s.1).1.minimum_cpu_usage

  ticks-uptime :
      (at_init : ℕ) (t : Times) (readings : List (ℕ × ℕ))
      → (ticks at_init t readings).0.uptime_at_last_reset ≡ at_init
  unfolding monitoring_tick cpu_usage_visitor reset_times
  ticks-uptime at_init t [] = refl
  ticks-uptime at_init t ((used_time, uptime) ∷ rest) = ticks-uptime at_init t rest

  -- If no usage is less than zero, the minimum that Monitor_GetIdleCPUUsageData returns stays at the
  -- zero that the static variable starts with, whatever is measured. The ticks are counted modulo
  -- 2^32, and the total time is the one since Monitor_Init, as long as the uptime does not go back and
  -- has 64 bits.
  pub minimum-ticks :
      (at_init : ℕ) (t : Times) (used_time uptime : ℕ) (readings : List (ℕ × ℕ))
      → ((integer_val float_val : ℕ)
          → R.is_less (usage_percent R integer_val float_val) R.zero_real ≡ false)
      → at_init ≤ uptime
      → uptime < 2 ^ 64
      → (minimum_of (ticks at_init t ((used_time, uptime) ∷ readings)) ≡ R.zero_real)
        × ((ticks at_init t ((used_time, uptime) ∷ readings)).1.benchmarking_ticks
            ≡ u32 (length ((used_time, uptime) ∷ readings)))
        × ((ticks at_init t ((used_time, uptime) ∷ readings)).0.total_usage_time + at_init ≡ uptime)
  unfolding monitoring_tick cpu_usage_visitor update_usage get_idle_cpu_usage_data
  minimum-ticks at_init t used_time uptime readings nonneg later small = (
    zero_minimum ((used_time, uptime) ∷ readings),
    counted ((used_time, uptime) ∷ readings),
    omega (arith, ticks-uptime at_init t readings, later, small),
  )
    where
      zero_minimum : (us : List (ℕ × ℕ)) → (ticks at_init t us).1.minimum_cpu_usage ≡ R.zero_real
      zero_minimum [] = refl
      zero_minimum ((used, up) ∷ us) =
          let w = divide used (sub64 up (ticks at_init t us).0.uptime_at_last_reset) in
          rw (zero_minimum us, nonneg w.0 w.1) refl

      counted : (us : List (ℕ × ℕ)) → (ticks at_init t us).1.benchmarking_ticks ≡ u32 (length us)
      counted [] = refl
      counted ((used, up) ∷ us) = omega (arith, counted us)
