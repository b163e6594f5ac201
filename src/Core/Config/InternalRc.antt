-- ===== src/Core/Config/InternalRc.antt =====
-- The macro SAMRH71_USE_INTERNAL_RC.
use taste_samx_rtems_runtime.Common.{
  Bool, ◌≡◌, false, refl, true, arith, if◌then◌else◌, none, Bool-cases, inl, inr,
}
use taste_samx_rtems_runtime.Core.Config.{any_defined}
use taste_samx_rtems_runtime.Core.Config.Rh71

define_frequency-none :
    (d : Rh71.Macros)
    → any_defined d.cpu_frequency Rh71.frequencies ≡ false
    → Rh71.define_frequency d ≡ d
unfolding Rh71.define_frequency
define_frequency-none d h = ground (arith, h)

-- The choices do not read the macro.
choose-use_internal_rc :
    (d : Rh71.Macros) (b : Bool) → Rh71.choose (record d { use_internal_rc = b }) ≡ Rh71.choose d
unfolding Rh71.choose Rh71.plla_multiplier Rh71.plla_divider Rh71.plla_startup_time Rh71.plla_vco
    Rh71.plla_filter_capacitor Rh71.plla_filter_resistor Rh71.plla_current Rh71.rcosc_frequency
    Rh71.main_clock_source Rh71.master_clock_source Rh71.master_clock_prescaler
    Rh71.master_clock_divider
choose-use_internal_rc d b = refl

-- With SAMRH71_USE_INTERNAL_RC a build either does not compile, because it names a frequency, or has
-- the configuration that it has without this macro: the macro never selects the internal oscillator.
pub configure_rh71-use_internal_rc :
    (d : Rh71.Macros)
    → d.use_internal_rc ≡ true
    → Rh71.configure d ≡ (
        if any_defined d.cpu_frequency Rh71.frequencies
        then none
        else Rh71.configure (record d { use_internal_rc = false }))
unfolding Rh71.configure Rh71.is_frequency_rejected Rh71.is_internal_rc_rejected
configure_rh71-use_internal_rc d used =
    elim (Bool-cases (any_defined d.cpu_frequency Rh71.frequencies)) [
      | inl named ↦ ground (arith, used, named)
      | inr unnamed ↦ ground (
        arith,
        used,
        unnamed,
        choose-use_internal_rc d false,
        define_frequency-none d unnamed,
        define_frequency-none (record d { use_internal_rc = false }) unnamed,
      )
    ]
