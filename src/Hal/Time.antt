-- ===== src/Hal/Time.antt =====
-- The elapsed time of src/Hal/Hal.c: a 16-bit counter of ticks, a count of its reloads, and the length
-- of a tick in nanoseconds as a fixed-point number with 32 binary digits behind the point.
pub mod Split
pub mod Snapshot
use taste_samx_rtems_runtime.Common.Word.{u32, u64, ◌>>>◌, ◌<<<◌}
use taste_samx_rtems_runtime.Common.{
  List, ℕ, Bool, Option, suc, ◌+◌, bit_and, none, true, zero, ◌*◌, ◌/◌, if◌then◌else◌, ◌∷◌, false,
  ◌==◌, some, [],
}

-- `ns_per_tick_q32` and its halves.
pub record TickLength : Type 0 where
  pub ns_per_tick_q32 : ℕ
  pub ns_per_tick_q32_hi : ℕ
  pub ns_per_tick_q32_lo : ℕ

-- `Hal_SetNsPerTickQ32`
unfoldable pub set_ns_per_tick_q32 : ℕ → TickLength
set_ns_per_tick_q32 value = record {
  ns_per_tick_q32 = value;
  ns_per_tick_q32_hi = value >>> 32;
  ns_per_tick_q32_lo = bit_and value 0xFFFFFFFF;
}

abbrev pub nanosecond_in_second : ℕ
nanosecond_in_second = 1000000000

abbrev pub clock_selection_prescaller : ℕ
clock_selection_prescaller = 8

-- The end of `Hal_Init`. A prescaled frequency of 0 makes the division undefined.
unfoldable pub tick_length : ℕ → Option TickLength
tick_length main_clock_frequency =
    let prescaled_clock_frequency = main_clock_frequency / clock_selection_prescaller in
    if prescaled_clock_frequency == 0
    then none
    else some (set_ns_per_tick_q32 (u64 (nanosecond_in_second <<< 32) / prescaled_clock_frequency))

abbrev pub ticks_per_reload : ℕ
ticks_per_reload = 65535

abbrev pub total_ticks : ℕ → ℕ → ℕ
total_ticks reloads ticks = u64 (u64 (reloads * ticks_per_reload) + ticks)

-- `Hal_GetElapsedTimeInNs` behind its loop.
unfoldable pub elapsed_time_in_ns : TickLength → ℕ → ℕ → ℕ
elapsed_time_in_ns q reloads ticks =
    let total = total_ticks reloads ticks in
    let ticks_high = total >>> 32 in
    let ticks_low = bit_and total 0xFFFFFFFF in
    let ns_high = u64 (ticks_high * q.ns_per_tick_q32) in
    let ns_low =
      u64 (
        u64 (ticks_low * q.ns_per_tick_q32_hi) + (u64 (ticks_low * q.ns_per_tick_q32_lo) >>> 32)) in
    u64 (ns_high + ns_low)

-- `reloads_counter` and `reloads_modified_flag`.
pub record Reloads : Type 0 where
  pub reloads_counter : ℕ
  pub reloads_modified : Bool

-- `timer_irq_handler`, on the variables.
unfoldable pub timer_irq_handler : Reloads → Reloads
timer_irq_handler s = record {
  reloads_counter = u32 (s.reloads_counter + 1);
  reloads_modified = true;
}

-- The handler, as often as the timer interrupts.
abbrev pub interrupts : ℕ → Reloads → Reloads
interrupts zero s = s
interrupts (suc n) s = timer_irq_handler (interrupts n s)

-- What happens around one round of the loop: how often the timer interrupts before the reloads are
-- read, before the ticks are read, and before the flag is checked, and which ticks are read.
pub record Round : Type 0 where
  pub before_reloads : ℕ
  pub before_ticks : ℕ
  pub before_check : ℕ
  pub ticks : ℕ

-- The loop of `Hal_GetElapsedTimeInNs` over the rounds that it may take: the reloads and the ticks that
-- it leaves with. `none` is a loop that has not ended with these rounds.
unfoldable pub snapshot : List Round → Reloads → Option (ℕ × ℕ)
snapshot [] s = none
snapshot (r ∷ rs) s =
    let s1 = interrupts r.before_reloads (record s { reloads_modified = false }) in
    let s2 = interrupts r.before_ticks s1 in
    let s3 = interrupts r.before_check s2 in
    let rest = snapshot rs s3 in
    if s3.reloads_modified then rest else some (s1.reloads_counter, u32 r.ticks)
