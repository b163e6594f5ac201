-- ===== src/Core/Config/Rh71.antt =====
-- The configuration of a SAMRH71 from the macros that a build defines: src/SamRH71Core/SamRH71Core.c.
-- The code asks for a SAMRH71F20, whose internal oscillator has a rate of 10 MHz.
use taste_samx_rtems_runtime.Core.Config.{
  rc_osc_freq_coded, mainck_src_coded, masterck_src_coded, masterck_presc_coded, masterck_div_coded,
  any_defined, bounded, family, is_defined, define, ℤ, pos, xosc_startup_time,
}
use taste_samx_rtems_runtime.Core.Clock.{
  PmcConfig, FrequencyRh71, MainckSrc, MasterckDiv, MasterckPresc, MasterckSrc, RcOscFreq,
  rh71_100mhz, div_1, div_2, pllack, presc_1, presc_2, rc_12m, rc_4m, rc_osc, rh71_90mhz, slck,
  x_osc_bypassed, mainck, presc_4, rc_10m, rc_8m, rh71_80mhz, x_osc, presc_8, rh71_75mhz, presc_16,
  rh71_60mhz, presc_32, rh71_50mhz, presc_64, rh71_25mhz,
}
use taste_samx_rtems_runtime.Common.{
  ◌>>=◌, Bool, List, Option, if◌then◌else◌, ℕ, ◌&&◌, ◌||◌, ◌∷◌, [], none, some,
}

-- `Pmc_FilterCapacitor`, `Pmc_FilterResistor` and `Pmc_PllCurrent`.
pub data FilterCapacitor : Type 0 where
  capacitor_20p capacitor_40p capacitor_30p capacitor_60p : FilterCapacitor

pub data FilterResistor : Type 0 where
  resistor_24k resistor_6k resistor_3k resistor_12k : FilterResistor

pub data PllCurrent : Type 0 where
  current_500u current_750u current_1000u current_1250u : PllCurrent

-- What a build defines. A family of macros with a common prefix is a predicate on the values that
-- its macros stand for; every other macro of the code is defined or has a value.
pub record Macros : Type 0 where
  pub no_init : Bool
  pub use_internal_rc : Bool
  pub cpu_frequency : FrequencyRh71 → Bool
  pub plla_multiplier : Option ℤ
  pub plla_divider : Option ℤ
  pub plla_startup_time : Option ℤ
  pub plla_vco : Option ℤ
  pub plla_filter_capacitor : FilterCapacitor → Bool
  pub plla_filter_resistor : FilterResistor → Bool
  pub plla_current : PllCurrent → Bool
  pub rcosc_xosc_startup_time : Option ℤ
  pub rcosc_frequency : RcOscFreq → Bool
  pub main_clock_source : MainckSrc → Bool
  pub master_clock_source : MasterckSrc → Bool
  pub master_clock_prescaler : MasterckPresc → Bool
  pub master_clock_divider : MasterckDiv → Bool

-- The values that SamRH71Core_Init passes to the board library.
pub record Settings : Type 0 where
  pub pmc : PmcConfig
  pub plla_startup_time : ℕ
  pub plla_vco : ℕ
  pub plla_filter_capacitor : FilterCapacitor
  pub plla_filter_resistor : FilterResistor
  pub plla_current : PllCurrent
  pub rcosc_xosc_startup_time : ℕ

abbrev pub frequencies : List FrequencyRh71
frequencies =
    rh71_100mhz ∷ rh71_90mhz ∷ rh71_80mhz ∷ rh71_75mhz ∷ rh71_60mhz ∷ rh71_50mhz ∷ rh71_25mhz ∷ []

abbrev pub capacitors : List FilterCapacitor
capacitors = capacitor_20p ∷ capacitor_40p ∷ capacitor_30p ∷ capacitor_60p ∷ []

abbrev pub resistors : List FilterResistor
resistors = resistor_24k ∷ resistor_6k ∷ resistor_3k ∷ resistor_12k ∷ []

abbrev pub currents : List PllCurrent
currents = current_500u ∷ current_750u ∷ current_1000u ∷ current_1250u ∷ []

abbrev pub rcosc_frequencies : List RcOscFreq
rcosc_frequencies = rc_4m ∷ rc_8m ∷ rc_10m ∷ rc_12m ∷ []

abbrev pub main_sources : List MainckSrc
main_sources = rc_osc ∷ x_osc ∷ x_osc_bypassed ∷ []

abbrev pub master_sources : List MasterckSrc
master_sources = slck ∷ mainck ∷ pllack ∷ []

abbrev pub prescalers : List MasterckPresc
prescalers = presc_1 ∷ presc_2 ∷ presc_4 ∷ presc_8 ∷ presc_16 ∷ presc_32 ∷ presc_64 ∷ []

abbrev pub dividers : List MasterckDiv
dividers = div_1 ∷ div_2 ∷ []

-- The macros of the low-level configuration, none of which stands beside a frequency.
unfoldable pub is_low_level : Macros → Bool
is_low_level d =
    is_defined d.plla_multiplier
    || is_defined d.plla_divider
    || any_defined d.rcosc_frequency rcosc_frequencies
    || any_defined d.main_clock_source main_sources
    || any_defined d.master_clock_source master_sources
    || any_defined d.master_clock_prescaler prescalers
    || any_defined d.master_clock_divider dividers

-- The `#error`s about a frequency.
unfoldable pub is_frequency_rejected : Macros → Bool
unfolding is_low_level
is_frequency_rejected d = any_defined d.cpu_frequency frequencies && (d.no_init || is_low_level d)

-- The `#error` about SAMRH71_USE_INTERNAL_RC, which stands in the `#else` of a test that no
-- frequency is defined.
unfoldable pub is_internal_rc_rejected : Macros → Bool
is_internal_rc_rejected d = d.use_internal_rc && any_defined d.cpu_frequency frequencies

-- The `#define`s of one frequency.
abbrev pub preset : Macros → ℕ → ℕ → MasterckPresc → MasterckDiv → Macros
preset d multiplier divider prescaler master_divider = record d {
  rcosc_frequency = define rc_10m d.rcosc_frequency;
  main_clock_source =
      define (if d.use_internal_rc then rc_osc else x_osc_bypassed) d.main_clock_source;
  plla_multiplier = some (pos multiplier);
  plla_divider = some (pos divider);
  master_clock_source = define pllack d.master_clock_source;
  master_clock_prescaler = define prescaler d.master_clock_prescaler;
  master_clock_divider = define master_divider d.master_clock_divider;
}

-- The `#if` and `#elif`s that take the first frequency that is defined.
unfoldable pub define_frequency : Macros → Macros
define_frequency d =
    if d.cpu_frequency rh71_100mhz
    then preset d 19 1 presc_2 div_2
    else if d.cpu_frequency rh71_90mhz
    then preset d 17 1 presc_2 div_2
    else if d.cpu_frequency rh71_80mhz
    then preset d 15 1 presc_2 div_2
    else if d.cpu_frequency rh71_75mhz
    then preset d 14 1 presc_2 div_2
    else if d.cpu_frequency rh71_60mhz
    then preset d 23 2 presc_2 div_2
    else if d.cpu_frequency rh71_50mhz
    then preset d 24 5 presc_1 div_1
    else if d.cpu_frequency rh71_25mhz
    then preset d 24 5 presc_2 div_1
    else d

-- The choices between the macros that are defined now, each with its default.
unfoldable pub plla_multiplier : Macros → Option ℕ
plla_multiplier d = bounded d.no_init d.plla_multiplier 25 19

unfoldable pub plla_divider : Macros → Option ℕ
plla_divider d = bounded d.no_init d.plla_divider 64 1

unfoldable pub plla_startup_time : Macros → Option ℕ
plla_startup_time d = bounded d.no_init d.plla_startup_time 63 60

unfoldable pub plla_vco : Macros → Option ℕ
plla_vco d = bounded d.no_init d.plla_vco 3 2

unfoldable pub plla_filter_capacitor : Macros → Option FilterCapacitor
plla_filter_capacitor d = family d.no_init d.plla_filter_capacitor capacitors capacitor_60p

unfoldable pub plla_filter_resistor : Macros → Option FilterResistor
plla_filter_resistor d = family d.no_init d.plla_filter_resistor resistors resistor_24k

unfoldable pub plla_current : Macros → Option PllCurrent
plla_current d = family d.no_init d.plla_current currents current_1250u

unfoldable pub rcosc_frequency : Macros → Option RcOscFreq
rcosc_frequency d = family d.no_init d.rcosc_frequency rcosc_frequencies rc_12m

unfoldable pub main_clock_source : Macros → Option MainckSrc
main_clock_source d = family d.no_init d.main_clock_source main_sources x_osc_bypassed

unfoldable pub master_clock_source : Macros → Option MasterckSrc
master_clock_source d = family d.no_init d.master_clock_source master_sources pllack

unfoldable pub master_clock_prescaler : Macros → Option MasterckPresc
master_clock_prescaler d = family d.no_init d.master_clock_prescaler prescalers presc_2

unfoldable pub master_clock_divider : Macros → Option MasterckDiv
master_clock_divider d = family d.no_init d.master_clock_divider dividers div_2

-- The choices in the order of the file.
unfoldable pub choose : Macros → Option Settings
choose d = do
  mul ← plla_multiplier d
  div ← plla_divider d
  startup ← plla_startup_time d
  vco ← plla_vco d
  capacitor ← plla_filter_capacitor d
  resistor ← plla_filter_resistor d
  current ← plla_current d
  xosc_startup ← xosc_startup_time d.no_init d.rcosc_xosc_startup_time
  freq ← rcosc_frequency d
  main_src ← main_clock_source d
  master_src ← master_clock_source d
  presc ← master_clock_prescaler d
  divider ← master_clock_divider d
  some (record {
    pmc = record {
      main_src = main_src;
      rc_osc_freq = freq;
      plla_mul = mul;
      plla_div = div;
      master_src = master_src;
      presc = presc;
      divider = divider;
    };
    plla_startup_time = startup;
    plla_vco = vco;
    plla_filter_capacitor = capacitor;
    plla_filter_resistor = resistor;
    plla_current = current;
    rcosc_xosc_startup_time = xosc_startup;
  })

-- The whole file up to the functions that use the macros.
unfoldable pub configure : Macros → Option Settings
configure d =
    if is_frequency_rejected d || is_internal_rc_rejected d
    then none
    else choose (define_frequency d)
