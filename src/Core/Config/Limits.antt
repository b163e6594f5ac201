-- ===== src/Core/Config/Limits.antt =====
-- The limits of the configurations that a build can choose.
use taste_samx_rtems_runtime.Core.Config.Chosen.{
  Rh71Chosen, V71Chosen, choose_rh71-Chosen, choose_v71-Chosen,
}
use native.Mathlib.Nat.{div-le_self, mul-le-mul, mod-le}
use taste_samx_rtems_runtime.Core.Clock.{
  apply_plla_config, extract_main_oscillator_frequency, get_processor_clock_frequency, prescale,
  PmcConfig, Target, rc_frequency, MasterckPresc, samv71q21, presc_1, samrh71f20, presc_2, presc_4,
  presc_8, presc_16, presc_32, presc_3, presc_64,
}
use taste_samx_rtems_runtime.Core.Config.{up_to}
use taste_samx_rtems_runtime.Core.Config.{bounded, xosc_startup_time, ℤ, pos, negsuc}
use taste_samx_rtems_runtime.Common.{
  ◌≡◌, some, Bool, arith, Option, ℕ, ◌≤◌, none, ◌%◌, Option-cases, inl, ◌*◌, inr, ◌+◌, ◌/◌, ◌^◌,
}
use taste_samx_rtems_runtime.Core.Config.Rh71
use taste_samx_rtems_runtime.Core.Config.V71

bounded-limit :
    (no_init : Bool) (v : Option ℤ) (limit default_value n : ℕ)
    → default_value ≤ limit
    → bounded no_init v limit default_value ≡ some n
    → n ≤ limit
unfolding bounded up_to
bounded-limit no_init none limit default_value n p h = ground (arith, h)
bounded-limit no_init (some (pos m)) limit default_value n p h = ground (arith, h)
bounded-limit no_init (some (negsuc m)) limit default_value n p h = ground (arith, h)

xosc_startup_time-limit :
    (no_init : Bool) (v : Option ℤ) (n : ℕ)
    → xosc_startup_time no_init v ≡ some n
    → (n ≤ 2040) × (n % 8 ≡ 0)
unfolding xosc_startup_time
xosc_startup_time-limit no_init v n h = elim (Option-cases (bounded no_init v 2040 0)) [
  | inl e ↦ ground (arith, h, e)
  | inr (m, e) ↦
      let small : m ≤ 2040 = bounded-limit no_init v 2040 0 m (omega arith) e in
      (ground (arith, h, e, small), ground (arith, h, e))
]

main_oscillator-limit :
    (t : Target) (c : PmcConfig) → extract_main_oscillator_frequency t c ≤ 12000000
unfolding extract_main_oscillator_frequency rc_frequency
main_oscillator-limit samv71q21 c = ground arith
main_oscillator-limit samrh71f20 c = ground arith

apply_plla_config-limit :
    (c : PmcConfig) (f k : ℕ)
    → f ≤ 12000000
    → c.plla_mul ≤ k
    → apply_plla_config c f ≤ 12000000 * (k + 1)
unfolding apply_plla_config
apply_plla_config-limit c f k slow small =
    let divided : f / c.plla_div ≤ f = div-le_self f c.plla_div in
    let first : f / c.plla_div * (c.plla_mul + 1) ≤ 12000000 * (k + 1) =
      mul-le-mul {n₁ = f / c.plla_div} {m₁ = c.plla_mul + 1} {n₂ = 12000000} {m₂ = k + 1}
        (omega (arith, divided, slow)) (omega (arith, small)) in
    let second : f * (c.plla_mul + 1) ≤ 12000000 * (k + 1) =
      mul-le-mul {n₁ = f} {m₁ = c.plla_mul + 1} {n₂ = 12000000} {m₂ = k + 1} slow
        (omega (arith, small)) in
    ground (
      arith,
      first,
      second,
      divided,
      slow,
      mod-le (f / c.plla_div * (c.plla_mul + 1)) (2 ^ 64),
      mod-le (f * (c.plla_mul + 1)) (2 ^ 64),
    )

prescale-le : (t : Target) (p : MasterckPresc) (f : ℕ) → prescale t p f ≤ f
unfolding prescale
prescale-le t presc_1 f = omega arith
prescale-le t presc_2 f = omega arith
prescale-le samv71q21 presc_3 f = omega arith
prescale-le samrh71f20 presc_3 f = omega arith
prescale-le t presc_4 f = omega arith
prescale-le t presc_8 f = omega arith
prescale-le t presc_16 f = omega arith
prescale-le t presc_32 f = omega arith
prescale-le t presc_64 f = omega arith

processor_clock-limit :
    (t : Target) (c : PmcConfig) (k : ℕ)
    → c.plla_mul ≤ k
    → get_processor_clock_frequency t c ≤ 12000000 * (k + 1)
unfolding get_processor_clock_frequency
processor_clock-limit t c k small =
    let f : ℕ = extract_main_oscillator_frequency t c in
    omega (
      arith,
      prescale-le t c.presc (apply_plla_config c f),
      apply_plla_config-limit c f k (main_oscillator-limit t c) small,
    )

-- What the values for the board library keep to, with the largest multiplier, divider and speed.
pub record IsWithin (t : Target) (multiplier divider : ℕ) (pmc : PmcConfig) (startup xosc : ℕ)
    : Type 0 where
  pub mul : pmc.plla_mul ≤ multiplier
  pub div : pmc.plla_div ≤ divider
  pub startup_limit : startup ≤ 63
  pub xosc_limit : xosc ≤ 2040
  pub xosc_step : xosc % 8 ≡ 0
  pub clock : get_processor_clock_frequency t pmc ≤ 12000000 * (multiplier + 1)

-- A configuration of a SAMRH71 that a build can have keeps to the limits of the device: multiplier to
-- 25, divider to 64, the times to 63 and 2040, the latter a multiple of 8, the range of the oscillator
-- to 3. The clock that the code computes for it is at most 312 MHz.
pub configure_rh71-IsWithin :
    (d : Rh71.Macros) (c : Rh71.Settings)
    → Rh71.configure d ≡ some c
    → IsWithin samrh71f20 25 64 c.pmc c.plla_startup_time c.rcosc_xosc_startup_time
      × (c.plla_vco ≤ 3)
unfolding Rh71.configure Rh71.plla_multiplier Rh71.plla_divider Rh71.plla_startup_time Rh71.plla_vco
configure_rh71-IsWithin d c h =
    let e : Rh71.Macros = Rh71.define_frequency d in
    let p : Rh71Chosen e c = choose_rh71-Chosen e c (ground (arith, h)) in
    let mul : c.pmc.plla_mul ≤ 25 =
      bounded-limit e.no_init e.plla_multiplier 25 19 c.pmc.plla_mul (omega arith) p.mul in
    let xosc : (c.rcosc_xosc_startup_time ≤ 2040) × (c.rcosc_xosc_startup_time % 8 ≡ 0) =
      xosc_startup_time-limit e.no_init e.rcosc_xosc_startup_time c.rcosc_xosc_startup_time
        p.xosc in
    (
      record {
        mul = mul;
        div = bounded-limit e.no_init e.plla_divider 64 1 c.pmc.plla_div (omega arith) p.div;
        startup_limit =
            bounded-limit e.no_init e.plla_startup_time 63 60 c.plla_startup_time (omega arith)
              p.startup;
        xosc_limit = xosc.0;
        xosc_step = xosc.1;
        clock = processor_clock-limit samrh71f20 c.pmc 25 mul;
      },
      bounded-limit e.no_init e.plla_vco 3 2 c.plla_vco (omega arith) p.vco,
    )

-- A configuration of a SAMV71 that a build can have keeps to the limits of the device: multiplier to
-- 62, divider to 255, the times to 63 and 2040, the latter a multiple of 8. The clock that the code
-- computes for it is at most 756 MHz.
pub configure_v71-IsWithin :
    (d : V71.Macros) (c : V71.Settings)
    → V71.configure d ≡ some c
    → IsWithin samv71q21 62 255 c.pmc c.plla_startup_time c.rcosc_xosc_startup_time
unfolding V71.configure V71.plla_multiplier V71.plla_divider V71.plla_startup_time
configure_v71-IsWithin d c h =
    let e : V71.Macros = V71.define_frequency d in
    let p : V71Chosen e c = choose_v71-Chosen e c (ground (arith, h)) in
    let mul : c.pmc.plla_mul ≤ 62 =
      bounded-limit e.no_init e.plla_multiplier 62 24 c.pmc.plla_mul (omega arith) p.mul in
    let xosc : (c.rcosc_xosc_startup_time ≤ 2040) × (c.rcosc_xosc_startup_time % 8 ≡ 0) =
      xosc_startup_time-limit e.no_init e.rcosc_xosc_startup_time c.rcosc_xosc_startup_time
        p.xosc in
    record {
      mul = mul;
      div = bounded-limit e.no_init e.plla_divider 255 1 c.pmc.plla_div (omega arith) p.div;
      startup_limit =
          bounded-limit e.no_init e.plla_startup_time 63 60 c.plla_startup_time (omega arith)
            p.startup;
      xosc_limit = xosc.0;
      xosc_step = xosc.1;
      clock = processor_clock-limit samv71q21 c.pmc 62 mul;
    }
