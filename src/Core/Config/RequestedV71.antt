-- ===== src/Core/Config/RequestedV71.antt =====
-- The configuration of a build that asks for a frequency of a SAMV71.
use taste_samx_rtems_runtime.Core.Config.Choice.{selected, family-define}
use taste_samx_rtems_runtime.Core.Clock.Nominal.{nominal_v71, preset_v71-nominal}
use taste_samx_rtems_runtime.Common.{
  false, ◌≡◌, some, ℕ, arith, ◌==◌, none, ◌*◌, ◌≤◌, true, ◌∷◌, [], refl, subst, ap, ◌∙◌,
}
use taste_samx_rtems_runtime.Core.Config.Chosen.{
  first_defined, any_defined-first, V71Chosen, choose_v71-Chosen, pmc-ext, some-inj,
}
use taste_samx_rtems_runtime.Core.Clock.{
  FrequencyV71, preset_v71, presc_2, div_2, MasterckPresc, get_processor_clock_frequency, presc_3,
  MasterckDiv, presc_4, samv71q21, v71_150mhz, div_1, v71_120mhz, v71_100mhz, v71_75mhz, v71_50mhz,
  v71_25mhz, config_v71, rc_osc, rc_12m, pllack,
}
use taste_samx_rtems_runtime.Core.Config.V71
use taste_samx_rtems_runtime.Core.Config.{
  rc_osc_freq_coded, mainck_src_coded, masterck_src_coded, masterck_presc_coded, masterck_div_coded,
  bounded, up_to, xosc_startup_time, family, exclusive, any_defined, define,
}

-- The values that one frequency defines, as arguments of `preset`.
abbrev preset_of : V71.Macros → FrequencyV71 → V71.Macros
preset_of d v71_150mhz = V71.preset d 24 1 presc_2 div_2
preset_of d v71_120mhz = V71.preset d 29 1 presc_3 div_2
preset_of d v71_100mhz = V71.preset d 24 1 presc_3 div_2
preset_of d v71_75mhz = V71.preset d 24 1 presc_4 div_2
preset_of d v71_50mhz = V71.preset d 24 2 presc_3 div_2
preset_of d v71_25mhz = V71.preset d 24 4 presc_3 div_1

define_frequency-first :
    (d : V71.Macros) (f : FrequencyV71)
    → first_defined d.cpu_frequency V71.frequencies ≡ some f
    → V71.define_frequency d ≡ preset_of d f
unfolding V71.define_frequency
define_frequency-first d v71_150mhz h = ground (arith, h)
define_frequency-first d v71_120mhz h = ground (arith, h)
define_frequency-first d v71_100mhz h = ground (arith, h)
define_frequency-first d v71_75mhz h = ground (arith, h)
define_frequency-first d v71_50mhz h = ground (arith, h)
define_frequency-first d v71_25mhz h = ground (arith, h)

choose-preset :
    (d : V71.Macros) (m k : ℕ) (p : MasterckPresc) (v : MasterckDiv) (c : V71.Settings)
    → d.no_init ≡ false
    → V71.is_low_level d ≡ false
    → m ≤ 62
    → k ≤ 255
    → selected (define p (λ _. false)) V71.prescalers ≡ p ∷ []
    → selected (define v (λ _. false)) V71.dividers ≡ v ∷ []
    → V71.choose (V71.preset d m k p v) ≡ some c
    → c.pmc ≡ config_v71 m k p v
unfolding V71.is_low_level V71.plla_multiplier V71.plla_divider V71.rcosc_frequency
    V71.main_clock_source V71.master_clock_source V71.master_clock_prescaler
    V71.master_clock_divider bounded up_to
choose-preset d m k p v c included plain small_m small_k once_p once_v h =
    let q : V71Chosen (V71.preset d m k p v) c = choose_v71-Chosen (V71.preset d m k p v) c h in
    pmc-ext
      (some-inj
        (family-define d.no_init rc_osc d.main_clock_source V71.main_sources rc_osc included
          (ground (arith, plain)) refl)
        q.main_src)
      (some-inj
        (family-define d.no_init rc_12m d.rcosc_frequency V71.rcosc_frequencies rc_12m included
          (ground (arith, plain)) refl)
        q.freq)
      (ground (arith, q.mul, included, small_m)) (ground (arith, q.div, included, small_k))
      (some-inj
        (family-define d.no_init pllack d.master_clock_source V71.master_sources pllack included
          (ground (arith, plain)) refl)
        q.master_src)
      (some-inj
        (family-define d.no_init p d.master_clock_prescaler V71.prescalers presc_2 included
          (ground (arith, plain)) once_p)
        q.presc)
      (some-inj
        (family-define d.no_init v d.master_clock_divider V71.dividers div_2 included
          (ground (arith, plain)) once_v)
        q.divider)

-- A build that names a frequency and no other macro, and what it chooses.
abbrev pub build_for : FrequencyV71 → V71.Macros
build_for f = record {
  no_init = false;
  cpu_frequency = λ g. nominal_v71 f == nominal_v71 g;
  plla_multiplier = none;
  plla_divider = none;
  plla_startup_time = none;
  rcosc_xosc_startup_time = none;
  rcosc_frequency = λ _. false;
  main_clock_source = λ _. false;
  master_clock_source = λ _. false;
  master_clock_prescaler = λ _. false;
  master_clock_divider = λ _. false;
}

abbrev pub settings_for : FrequencyV71 → V71.Settings
settings_for f = record { pmc = preset_v71 f; plla_startup_time = 60; rcosc_xosc_startup_time = 0 }

pub configure-build_for : (f : FrequencyV71) → V71.configure (build_for f) ≡ some (settings_for f)
unfolding V71.configure V71.choose V71.define_frequency V71.is_frequency_rejected V71.is_low_level
    V71.plla_multiplier V71.plla_divider V71.plla_startup_time V71.rcosc_frequency
    V71.main_clock_source V71.master_clock_source V71.master_clock_prescaler
    V71.master_clock_divider bounded up_to xosc_startup_time family exclusive preset_v71
configure-build_for v71_150mhz = refl
configure-build_for v71_120mhz = refl
configure-build_for v71_100mhz = refl
configure-build_for v71_75mhz = refl
configure-build_for v71_50mhz = refl
configure-build_for v71_25mhz = refl

choose-first :
    (d : V71.Macros) (f : FrequencyV71) (c : V71.Settings)
    → d.no_init ≡ false
    → V71.is_low_level d ≡ false
    → V71.choose (preset_of d f) ≡ some c
    → c.pmc ≡ preset_v71 f
unfolding preset_v71
choose-first d v71_150mhz c i p h =
    choose-preset d 24 1 presc_2 div_2 c i p (omega arith) (omega arith) refl refl h
choose-first d v71_120mhz c i p h =
    choose-preset d 29 1 presc_3 div_2 c i p (omega arith) (omega arith) refl refl h
choose-first d v71_100mhz c i p h =
    choose-preset d 24 1 presc_3 div_2 c i p (omega arith) (omega arith) refl refl h
choose-first d v71_75mhz c i p h =
    choose-preset d 24 1 presc_4 div_2 c i p (omega arith) (omega arith) refl refl h
choose-first d v71_50mhz c i p h =
    choose-preset d 24 2 presc_3 div_2 c i p (omega arith) (omega arith) refl refl h
choose-first d v71_25mhz c i p h =
    choose-preset d 24 4 presc_3 div_1 c i p (omega arith) (omega arith) refl refl h

-- A build for a SAMV71 that names a frequency and compiles, whatever else it defines, has the
-- configuration of the first frequency that it names on the internal oscillator of 12 MHz, and the code
-- computes this frequency back. A build that names a frequency only compiles.
pub configure_v71-first :
    (d : V71.Macros) (f : FrequencyV71) (c : V71.Settings)
    → first_defined d.cpu_frequency V71.frequencies ≡ some f
    → V71.configure d ≡ some c
    → (c.pmc ≡ preset_v71 f)
      × (get_processor_clock_frequency samv71q21 c.pmc ≡ nominal_v71 f * 1000000)
      × (V71.configure (build_for f) ≡ some (settings_for f))
unfolding V71.configure V71.is_frequency_rejected
configure_v71-first d f c first h =
    let named : any_defined d.cpu_frequency V71.frequencies ≡ true =
      any_defined-first d.cpu_frequency V71.frequencies f first in
    let preset : c.pmc ≡ preset_v71 f =
      choose-first d f c (ground (arith, h, named)) (ground (arith, h, named)) (
        subst (λ e. V71.choose e ≡ some c) (define_frequency-first d f first)
          (ground (arith, h, named))) in
    (
      preset,
      ap (get_processor_clock_frequency samv71q21) preset ∙ preset_v71-nominal f,
      configure-build_for f,
    )
