-- ===== src/Core/Config/V71.antt =====
-- The configuration of a SAMV71 from the macros that a build defines: src/SamV71Core/SamV71Core.c.
use taste_samx_rtems_runtime.Core.Clock.{
  PmcConfig, FrequencyV71, MainckSrc, MasterckDiv, MasterckPresc, MasterckSrc, RcOscFreq,
  v71_150mhz, div_1, presc_1, presc_2, rc_4m, rc_osc, slck, div_2, mainck, pllack, presc_3, rc_12m,
  rc_8m, v71_120mhz, x_osc, presc_4, v71_100mhz, x_osc_bypassed, presc_8, v71_75mhz, presc_16,
  v71_50mhz, presc_32, v71_25mhz, presc_64,
}
use taste_samx_rtems_runtime.Core.Config.{
  rc_osc_freq_coded, mainck_src_coded, masterck_src_coded, masterck_presc_coded, masterck_div_coded,
  any_defined, bounded, is_defined, xosc_startup_time, define, family, ℤ, pos,
}
use taste_samx_rtems_runtime.Common.{
  ◌>>=◌, Bool, List, Option, if◌then◌else◌, ℕ, none, some, ◌&&◌, ◌||◌, ◌∷◌, [],
}

-- What a build defines. A family of macros with a common prefix is a predicate on the values that
-- its macros stand for; every other macro of the code is defined or has a value.
pub record Macros : Type 0 where
  pub no_init : Bool
  pub cpu_frequency : FrequencyV71 → Bool
  pub plla_multiplier : Option ℤ
  pub plla_divider : Option ℤ
  pub plla_startup_time : Option ℤ
  pub rcosc_xosc_startup_time : Option ℤ
  pub rcosc_frequency : RcOscFreq → Bool
  pub main_clock_source : MainckSrc → Bool
  pub master_clock_source : MasterckSrc → Bool
  pub master_clock_prescaler : MasterckPresc → Bool
  pub master_clock_divider : MasterckDiv → Bool

-- The values that SamV71Core_Init passes to the board library.
pub record Settings : Type 0 where
  pub pmc : PmcConfig
  pub plla_startup_time : ℕ
  pub rcosc_xosc_startup_time : ℕ

abbrev pub frequencies : List FrequencyV71
frequencies = v71_150mhz ∷ v71_120mhz ∷ v71_100mhz ∷ v71_75mhz ∷ v71_50mhz ∷ v71_25mhz ∷ []

abbrev pub rcosc_frequencies : List RcOscFreq
rcosc_frequencies = rc_4m ∷ rc_8m ∷ rc_12m ∷ []

abbrev pub main_sources : List MainckSrc
main_sources = rc_osc ∷ x_osc ∷ x_osc_bypassed ∷ []

abbrev pub master_sources : List MasterckSrc
master_sources = slck ∷ mainck ∷ pllack ∷ []

abbrev pub prescalers : List MasterckPresc
prescalers = presc_1 ∷ presc_2 ∷ presc_3 ∷ presc_4 ∷ presc_8 ∷ presc_16 ∷ presc_32 ∷ presc_64 ∷ []

abbrev pub dividers : List MasterckDiv
dividers = div_1 ∷ div_2 ∷ []

-- The macros of the low-level configuration, none of which stands beside a frequency.
unfoldable pub is_low_level : Macros → Bool
is_low_level d =
    is_defined d.plla_multiplier
    || is_defined d.plla_divider
    || any_defined d.rcosc_frequency rcosc_frequencies
    || any_defined d.main_clock_source main_sources
    || any_defined d.master_clock_source master_sources
    || any_defined d.master_clock_prescaler prescalers
    || any_defined d.master_clock_divider dividers

-- The `#error`s about a frequency.
unfoldable pub is_frequency_rejected : Macros → Bool
unfolding is_low_level
is_frequency_rejected d = any_defined d.cpu_frequency frequencies && (d.no_init || is_low_level d)

-- The `#define`s of one frequency.
abbrev pub preset : Macros → ℕ → ℕ → MasterckPresc → MasterckDiv → Macros
preset d multiplier divider prescaler master_divider = record d {
  rcosc_frequency = define rc_12m d.rcosc_frequency;
  main_clock_source = define rc_osc d.main_clock_source;
  plla_multiplier = some (pos multiplier);
  plla_divider = some (pos divider);
  master_clock_source = define pllack d.master_clock_source;
  master_clock_prescaler = define prescaler d.master_clock_prescaler;
  master_clock_divider = define master_divider d.master_clock_divider;
}

-- The `#if` and `#elif`s that take the first frequency that is defined.
unfoldable pub define_frequency : Macros → Macros
define_frequency d =
    if d.cpu_frequency v71_150mhz
    then preset d 24 1 presc_2 div_2
    else if d.cpu_frequency v71_120mhz
    then preset d 29 1 presc_3 div_2
    else if d.cpu_frequency v71_100mhz
    then preset d 24 1 presc_3 div_2
    else if d.cpu_frequency v71_75mhz
    then preset d 24 1 presc_4 div_2
    else if d.cpu_frequency v71_50mhz
    then preset d 24 2 presc_3 div_2
    else if d.cpu_frequency v71_25mhz
    then preset d 24 4 presc_3 div_1
    else d

-- The choices between the macros that are defined now, each with its default.
unfoldable pub plla_multiplier : Macros → Option ℕ
plla_multiplier d = bounded d.no_init d.plla_multiplier 62 24

unfoldable pub plla_divider : Macros → Option ℕ
plla_divider d = bounded d.no_init d.plla_divider 255 1

unfoldable pub plla_startup_time : Macros → Option ℕ
plla_startup_time d = bounded d.no_init d.plla_startup_time 63 60

unfoldable pub rcosc_frequency : Macros → Option RcOscFreq
rcosc_frequency d = family d.no_init d.rcosc_frequency rcosc_frequencies rc_12m

unfoldable pub main_clock_source : Macros → Option MainckSrc
main_clock_source d = family d.no_init d.main_clock_source main_sources rc_osc

unfoldable pub master_clock_source : Macros → Option MasterckSrc
master_clock_source d = family d.no_init d.master_clock_source master_sources pllack

unfoldable pub master_clock_prescaler : Macros → Option MasterckPresc
master_clock_prescaler d = family d.no_init d.master_clock_prescaler prescalers presc_2

unfoldable pub master_clock_divider : Macros → Option MasterckDiv
master_clock_divider d = family d.no_init d.master_clock_divider dividers div_2

-- The choices in the order of the file.
unfoldable pub choose : Macros → Option Settings
choose d = do
  mul ← plla_multiplier d
  div ← plla_divider d
  startup ← plla_startup_time d
  xosc_startup ← xosc_startup_time d.no_init d.rcosc_xosc_startup_time
  freq ← rcosc_frequency d
  main_src ← main_clock_source d
  master_src ← master_clock_source d
  presc ← master_clock_prescaler d
  divider ← master_clock_divider d
  some (record {
    pmc = record {
      main_src = main_src;
      rc_osc_freq = freq;
      plla_mul = mul;
      plla_div = div;
      master_src = master_src;
      presc = presc;
      divider = divider;
    };
    plla_startup_time = startup;
    rcosc_xosc_startup_time = xosc_startup;
  })

-- The whole file up to the functions that use the macros.
unfoldable pub configure : Macros → Option Settings
configure d = if is_frequency_rejected d then none else choose (define_frequency d)
