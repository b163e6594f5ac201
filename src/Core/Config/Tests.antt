-- ===== src/Core/Config/Tests.antt =====
-- The choice of a configuration on concrete builds.
use taste_samx_rtems_runtime.Core.Clock.{samrh71f20, presc_8}
use taste_samx_rtems_runtime.Core.Config.InternalRc.{configure_rh71-use_internal_rc}
use taste_samx_rtems_runtime.Core.Config.Choice.{sole, family-sole}
use taste_samx_rtems_runtime.Common.{◌≡◌, Bool, false, some, true, none, ◌≤◌, refl, ◌∷◌, []}
use taste_samx_rtems_runtime.Core.Config.Limits.{IsWithin, configure_rh71-IsWithin}
use taste_samx_rtems_runtime.Core.Config.{bounded, exclusive, family, up_to, pos, xosc_startup_time}
use taste_samx_rtems_runtime.Core.Clock.{
  RcOscFreq, rh71_100mhz, rh71_60mhz, presc_2, preset_rh71, get_processor_clock_frequency, rc_12m,
  rc_8m,
}
use taste_samx_rtems_runtime.Core.Config.Rh71
use taste_samx_rtems_runtime.Core.Config.RequestedRh71

-- Two macros of one family, and one that stands alone.
abbrev is_rc_8m : RcOscFreq → Bool
is_rc_8m f = elim f [ rc_8m ↦ true | _ ↦ false ]

family-sole_example :
    family false is_rc_8m Rh71.rcosc_frequencies rc_12m ≡ sole false (rc_8m ∷ []) rc_12m
family-sole_example = family-sole false is_rc_8m Rh71.rcosc_frequencies rc_12m

two_prescalers :
    exclusive (λ p. elim p [ presc_2 ↦ true | presc_8 ↦ true | _ ↦ false ]) Rh71.prescalers presc_2
    ≡ none
unfolding exclusive
two_prescalers = refl

multiplier_too_large : bounded false (some (pos 26)) 25 19 ≡ none
unfolding bounded up_to
multiplier_too_large = refl

-- A build for 60 MHz, with an oscillator range of its own.
abbrev custom_build : Rh71.Macros
custom_build = record (RequestedRh71.build_for rh71_60mhz) { plla_vco = some (pos 3) }

abbrev custom_settings : Rh71.Settings
custom_settings = record (RequestedRh71.settings_for rh71_60mhz) { plla_vco = 3 }

pub custom_build_lem : Rh71.configure custom_build ≡ some custom_settings
unfolding Rh71.configure Rh71.choose Rh71.define_frequency Rh71.is_frequency_rejected
    Rh71.is_internal_rc_rejected Rh71.is_low_level Rh71.plla_multiplier Rh71.plla_divider
    Rh71.plla_startup_time Rh71.plla_vco Rh71.plla_filter_capacitor Rh71.plla_filter_resistor
    Rh71.plla_current Rh71.rcosc_frequency Rh71.main_clock_source Rh71.master_clock_source
    Rh71.master_clock_prescaler Rh71.master_clock_divider bounded up_to xosc_startup_time family
    exclusive preset_rh71
custom_build_lem = refl

configure_rh71-IsWithin_example : IsWithin samrh71f20 25 64 custom_settings.pmc 60 0 × (3 ≤ 3)
configure_rh71-IsWithin_example =
    configure_rh71-IsWithin custom_build custom_settings custom_build_lem

configure_rh71-first_example :
    (custom_settings.pmc ≡ preset_rh71 false rh71_60mhz)
    × (get_processor_clock_frequency samrh71f20 custom_settings.pmc ≡ 60000000)
    × (Rh71.configure (RequestedRh71.build_for rh71_60mhz)
        ≡ some (RequestedRh71.settings_for rh71_60mhz))
configure_rh71-first_example =
    RequestedRh71.configure_rh71-first custom_build rh71_60mhz custom_settings refl custom_build_lem

-- The internal oscillator at 100 MHz.
configure_rh71-use_internal_rc_example :
    Rh71.configure (record (RequestedRh71.build_for rh71_100mhz) { use_internal_rc = true }) ≡ none
configure_rh71-use_internal_rc_example =
    configure_rh71-use_internal_rc
      (record (RequestedRh71.build_for rh71_100mhz) { use_internal_rc = true }) refl
