-- ===== src/Core/Clock/Nominal.antt =====
-- The frequencies that the configurations lead to.
use taste_samx_rtems_runtime.Common.Word.{u32, u64}
use native.Mathlib.Nat.{mul-le-mul, mul_right_comm}
use taste_samx_rtems_runtime.Common.{
  ℕ, ◌≤◌, arith, ◌≡◌, ◌*◌, ◌<◌, Bool, ◌^◌, refl, true, false, ◌/◌, ap, ◌∙◌,
}
use taste_samx_rtems_runtime.Core.Clock.{
  FrequencyRh71, FrequencyV71, get_processor_clock_frequency, systick_reload, preset_rh71,
  preset_v71, prescale, rh71_100mhz, samv71q21, v71_150mhz, apply_plla_config, rh71_90mhz,
  v71_120mhz, extract_main_oscillator_frequency, rh71_80mhz, v71_100mhz, rc_frequency, rh71_75mhz,
  v71_75mhz, rh71_60mhz, v71_50mhz, rh71_50mhz, samrh71f20, v71_25mhz, rh71_25mhz,
}

-- The frequencies in MHz that the names promise.
abbrev pub nominal_v71 : FrequencyV71 → ℕ
nominal_v71 v71_150mhz = 150
nominal_v71 v71_120mhz = 120
nominal_v71 v71_100mhz = 100
nominal_v71 v71_75mhz = 75
nominal_v71 v71_50mhz = 50
nominal_v71 v71_25mhz = 25

abbrev pub nominal_rh71 : FrequencyRh71 → ℕ
nominal_rh71 rh71_100mhz = 100
nominal_rh71 rh71_90mhz = 90
nominal_rh71 rh71_80mhz = 80
nominal_rh71 rh71_75mhz = 75
nominal_rh71 rh71_60mhz = 60
nominal_rh71 rh71_50mhz = 50
nominal_rh71 rh71_25mhz = 25

pub preset_v71-nominal :
    (f : FrequencyV71)
    → get_processor_clock_frequency samv71q21 (preset_v71 f) ≡ nominal_v71 f * 1000000
unfolding get_processor_clock_frequency preset_v71 prescale apply_plla_config
    extract_main_oscillator_frequency rc_frequency
preset_v71-nominal v71_150mhz = refl
preset_v71-nominal v71_120mhz = refl
preset_v71-nominal v71_100mhz = refl
preset_v71-nominal v71_75mhz = refl
preset_v71-nominal v71_50mhz = refl
preset_v71-nominal v71_25mhz = refl

-- Every frequency that can be chosen for a SAMRH71 is the one that the code computes back, on the
-- internal oscillator and on the external crystal of 10 MHz.
pub preset_rh71-nominal :
    (internal : Bool) (f : FrequencyRh71)
    → get_processor_clock_frequency samrh71f20 (preset_rh71 internal f) ≡ nominal_rh71 f * 1000000
unfolding get_processor_clock_frequency preset_rh71 prescale apply_plla_config
    extract_main_oscillator_frequency rc_frequency
preset_rh71-nominal true rh71_100mhz = refl
preset_rh71-nominal true rh71_90mhz = refl
preset_rh71-nominal true rh71_80mhz = refl
preset_rh71-nominal true rh71_75mhz = refl
preset_rh71-nominal true rh71_60mhz = refl
preset_rh71-nominal true rh71_50mhz = refl
preset_rh71-nominal true rh71_25mhz = refl
preset_rh71-nominal false rh71_100mhz = refl
preset_rh71-nominal false rh71_90mhz = refl
preset_rh71-nominal false rh71_80mhz = refl
preset_rh71-nominal false rh71_75mhz = refl
preset_rh71-nominal false rh71_60mhz = refl
preset_rh71-nominal false rh71_50mhz = refl
preset_rh71-nominal false rh71_25mhz = refl

pub nominal_v71-le : (f : FrequencyV71) → nominal_v71 f ≤ 150
nominal_v71-le v71_150mhz = omega arith
nominal_v71-le v71_120mhz = omega arith
nominal_v71-le v71_100mhz = omega arith
nominal_v71-le v71_75mhz = omega arith
nominal_v71-le v71_50mhz = omega arith
nominal_v71-le v71_25mhz = omega arith

-- At every frequency that can be chosen for a SAMV71 the code computes this frequency back. With ticks
-- of up to 111 milliseconds the reload value of the system timer is the number of clock cycles in a
-- tick, and it fits the 24 bits of the counter.
pub systick_reload-cycles :
    (f : FrequencyV71) (microseconds_per_tick : ℕ)
    → microseconds_per_tick ≤ 111000
    → (get_processor_clock_frequency samv71q21 (preset_v71 f) ≡ nominal_v71 f * 1000000)
      × (systick_reload samv71q21 (preset_v71 f) microseconds_per_tick
          ≡ nominal_v71 f * microseconds_per_tick)
      × (systick_reload samv71q21 (preset_v71 f) microseconds_per_tick < 2 ^ 24)
unfolding systick_reload
systick_reload-cycles f us small =
    let n : ℕ = nominal_v71 f in
    let bound : n * us ≤ 150 * 111000 =
      mul-le-mul {n₁ = n} {m₁ = us} {n₂ = 150} {m₂ = 111000} (nominal_v71-le f) small in
    let product : n * 1000000 * us ≡ n * us * 1000000 = mul_right_comm n 1000000 us in
    let cycles : u32 (u64 (n * 1000000 * us) / 1000000) ≡ n * us = omega (arith, product, bound) in
    let reload : u32 (u64 (get_processor_clock_frequency samv71q21 (preset_v71 f) * us) / 1000000)
        ≡ n * us =
      ap (λ x. u32 (u64 (x * us) / 1000000)) (preset_v71-nominal f) ∙ cycles in
    (preset_v71-nominal f, reload, omega (arith, reload, bound))
