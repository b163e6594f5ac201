-- ===== src/Core/Config/RequestedRh71.antt =====
-- The configuration of a build that asks for a frequency of a SAMRH71.
use taste_samx_rtems_runtime.Core.Config.Choice.{selected, family-define}
use taste_samx_rtems_runtime.Core.Clock.Nominal.{nominal_rh71, preset_rh71-nominal}
use taste_samx_rtems_runtime.Common.{
  false, ◌≡◌, some, ℕ, arith, ◌==◌, none, ◌*◌, ◌≤◌, true, ◌∷◌, [], subst, ap, refl, ◌∙◌, Bool,
  if◌then◌else◌,
}
use taste_samx_rtems_runtime.Core.Config.Chosen.{
  first_defined, any_defined-first, Rh71Chosen, choose_rh71-Chosen, pmc-ext, some-inj,
}
use taste_samx_rtems_runtime.Core.Clock.{
  FrequencyRh71, preset_rh71, presc_2, div_2, MasterckPresc, get_processor_clock_frequency, presc_1,
  MasterckDiv, div_1, rh71_100mhz, samrh71f20, rh71_90mhz, rh71_80mhz, rh71_75mhz, rh71_60mhz,
  rh71_50mhz, config_rh71, rh71_25mhz, x_osc_bypassed, rc_osc, rc_10m, rc_12m, pllack,
}
use taste_samx_rtems_runtime.Core.Config.Rh71
use taste_samx_rtems_runtime.Core.Config.{
  rc_osc_freq_coded, mainck_src_coded, masterck_src_coded, masterck_presc_coded, masterck_div_coded,
  bounded, up_to, xosc_startup_time, family, exclusive, any_defined, define,
}

-- The values that one frequency defines, as arguments of `preset`.
abbrev preset_of : Rh71.Macros → FrequencyRh71 → Rh71.Macros
preset_of d rh71_100mhz = Rh71.preset d 19 1 presc_2 div_2
preset_of d rh71_90mhz = Rh71.preset d 17 1 presc_2 div_2
preset_of d rh71_80mhz = Rh71.preset d 15 1 presc_2 div_2
preset_of d rh71_75mhz = Rh71.preset d 14 1 presc_2 div_2
preset_of d rh71_60mhz = Rh71.preset d 23 2 presc_2 div_2
preset_of d rh71_50mhz = Rh71.preset d 24 5 presc_1 div_1
preset_of d rh71_25mhz = Rh71.preset d 24 5 presc_2 div_1

define_frequency-first :
    (d : Rh71.Macros) (f : FrequencyRh71)
    → first_defined d.cpu_frequency Rh71.frequencies ≡ some f
    → Rh71.define_frequency d ≡ preset_of d f
unfolding Rh71.define_frequency
define_frequency-first d rh71_100mhz h = ground (arith, h)
define_frequency-first d rh71_90mhz h = ground (arith, h)
define_frequency-first d rh71_80mhz h = ground (arith, h)
define_frequency-first d rh71_75mhz h = ground (arith, h)
define_frequency-first d rh71_60mhz h = ground (arith, h)
define_frequency-first d rh71_50mhz h = ground (arith, h)
define_frequency-first d rh71_25mhz h = ground (arith, h)

choose-preset :
    (d : Rh71.Macros) (m k : ℕ) (p : MasterckPresc) (v : MasterckDiv) (c : Rh71.Settings)
    → d.no_init ≡ false
    → d.use_internal_rc ≡ false
    → Rh71.is_low_level d ≡ false
    → m ≤ 25
    → k ≤ 64
    → selected (define p (λ _. false)) Rh71.prescalers ≡ p ∷ []
    → selected (define v (λ _. false)) Rh71.dividers ≡ v ∷ []
    → Rh71.choose (Rh71.preset d m k p v) ≡ some c
    → c.pmc ≡ config_rh71 false m k p v
unfolding Rh71.is_low_level Rh71.plla_multiplier Rh71.plla_divider Rh71.rcosc_frequency
    Rh71.main_clock_source Rh71.master_clock_source Rh71.master_clock_prescaler
    Rh71.master_clock_divider bounded up_to
choose-preset d m k p v c included external plain small_m small_k once_p once_v h =
    let q : Rh71Chosen (Rh71.preset d m k p v) c = choose_rh71-Chosen (Rh71.preset d m k p v) c h in
    pmc-ext
      (some-inj
        (family-define d.no_init x_osc_bypassed d.main_clock_source Rh71.main_sources x_osc_bypassed
          included (ground (arith, plain)) refl)
        (subst
          (λ (b : Bool).
            family d.no_init (define (if b then rc_osc else x_osc_bypassed) d.main_clock_source)
              Rh71.main_sources x_osc_bypassed
            ≡ some c.pmc.main_src)
          external q.main_src))
      (some-inj
        (family-define d.no_init rc_10m d.rcosc_frequency Rh71.rcosc_frequencies rc_12m included
          (ground (arith, plain)) refl)
        q.freq)
      (ground (arith, q.mul, included, small_m)) (ground (arith, q.div, included, small_k))
      (some-inj
        (family-define d.no_init pllack d.master_clock_source Rh71.master_sources pllack included
          (ground (arith, plain)) refl)
        q.master_src)
      (some-inj
        (family-define d.no_init p d.master_clock_prescaler Rh71.prescalers presc_2 included
          (ground (arith, plain)) once_p)
        q.presc)
      (some-inj
        (family-define d.no_init v d.master_clock_divider Rh71.dividers div_2 included
          (ground (arith, plain)) once_v)
        q.divider)

-- A build that names a frequency and no other macro, and what it chooses.
abbrev pub build_for : FrequencyRh71 → Rh71.Macros
build_for f = record {
  no_init = false;
  use_internal_rc = false;
  cpu_frequency = λ g. nominal_rh71 f == nominal_rh71 g;
  plla_multiplier = none;
  plla_divider = none;
  plla_startup_time = none;
  plla_vco = none;
  plla_filter_capacitor = λ _. false;
  plla_filter_resistor = λ _. false;
  plla_current = λ _. false;
  rcosc_xosc_startup_time = none;
  rcosc_frequency = λ _. false;
  main_clock_source = λ _. false;
  master_clock_source = λ _. false;
  master_clock_prescaler = λ _. false;
  master_clock_divider = λ _. false;
}

abbrev pub settings_for : FrequencyRh71 → Rh71.Settings
settings_for f = record {
  pmc = preset_rh71 false f;
  plla_startup_time = 60;
  plla_vco = 2;
  plla_filter_capacitor = Rh71.capacitor_60p;
  plla_filter_resistor = Rh71.resistor_24k;
  plla_current = Rh71.current_1250u;
  rcosc_xosc_startup_time = 0;
}

pub configure-build_for : (f : FrequencyRh71) → Rh71.configure (build_for f) ≡ some (settings_for f)
unfolding Rh71.configure Rh71.choose Rh71.define_frequency Rh71.is_frequency_rejected
    Rh71.is_internal_rc_rejected Rh71.is_low_level Rh71.plla_multiplier Rh71.plla_divider
    Rh71.plla_startup_time Rh71.plla_vco Rh71.plla_filter_capacitor Rh71.plla_filter_resistor
    Rh71.plla_current Rh71.rcosc_frequency Rh71.main_clock_source Rh71.master_clock_source
    Rh71.master_clock_prescaler Rh71.master_clock_divider bounded up_to xosc_startup_time family
    exclusive preset_rh71
configure-build_for rh71_100mhz = refl
configure-build_for rh71_90mhz = refl
configure-build_for rh71_80mhz = refl
configure-build_for rh71_75mhz = refl
configure-build_for rh71_60mhz = refl
configure-build_for rh71_50mhz = refl
configure-build_for rh71_25mhz = refl

choose-first :
    (d : Rh71.Macros) (f : FrequencyRh71) (c : Rh71.Settings)
    → d.no_init ≡ false
    → d.use_internal_rc ≡ false
    → Rh71.is_low_level d ≡ false
    → Rh71.choose (preset_of d f) ≡ some c
    → c.pmc ≡ preset_rh71 false f
unfolding preset_rh71
choose-first d rh71_100mhz c i e p h =
    choose-preset d 19 1 presc_2 div_2 c i e p (omega arith) (omega arith) refl refl h
choose-first d rh71_90mhz c i e p h =
    choose-preset d 17 1 presc_2 div_2 c i e p (omega arith) (omega arith) refl refl h
choose-first d rh71_80mhz c i e p h =
    choose-preset d 15 1 presc_2 div_2 c i e p (omega arith) (omega arith) refl refl h
choose-first d rh71_75mhz c i e p h =
    choose-preset d 14 1 presc_2 div_2 c i e p (omega arith) (omega arith) refl refl h
choose-first d rh71_60mhz c i e p h =
    choose-preset d 23 2 presc_2 div_2 c i e p (omega arith) (omega arith) refl refl h
choose-first d rh71_50mhz c i e p h =
    choose-preset d 24 5 presc_1 div_1 c i e p (omega arith) (omega arith) refl refl h
choose-first d rh71_25mhz c i e p h =
    choose-preset d 24 5 presc_2 div_1 c i e p (omega arith) (omega arith) refl refl h

-- A build for a SAMRH71 that names a frequency and compiles, whatever else it defines, has the
-- configuration of the first frequency that it names, on the external crystal of 10 MHz, and the code
-- computes this frequency back. A build that names a frequency only compiles.
pub configure_rh71-first :
    (d : Rh71.Macros) (f : FrequencyRh71) (c : Rh71.Settings)
    → first_defined d.cpu_frequency Rh71.frequencies ≡ some f
    → Rh71.configure d ≡ some c
    → (c.pmc ≡ preset_rh71 false f)
      × (get_processor_clock_frequency samrh71f20 c.pmc ≡ nominal_rh71 f * 1000000)
      × (Rh71.configure (build_for f) ≡ some (settings_for f))
unfolding Rh71.configure Rh71.is_frequency_rejected Rh71.is_internal_rc_rejected
configure_rh71-first d f c first h =
    let named : any_defined d.cpu_frequency Rh71.frequencies ≡ true =
      any_defined-first d.cpu_frequency Rh71.frequencies f first in
    let preset : c.pmc ≡ preset_rh71 false f =
      choose-first d f c (ground (arith, h, named)) (ground (arith, h, named))
        (ground (arith, h, named))
        (subst (λ e. Rh71.choose e ≡ some c) (define_frequency-first d f first)
          (ground (arith, h, named))) in
    (
      preset,
      ap (get_processor_clock_frequency samrh71f20) preset ∙ preset_rh71-nominal false f,
      configure-build_for f,
    )
