-- ===== src/Core/Clock.antt =====
-- The clock frequencies of src/SamV71Core/SamV71Core.c and src/SamRH71Core/SamRH71Core.c, and the
-- configurations that they set for a frequency of the processor.
pub mod Nominal
use taste_samx_rtems_runtime.Common.Word.{u32, u64}
use taste_samx_rtems_runtime.Common.{
  Bool, ℕ, if◌then◌else◌, true, ◌*◌, ◌/◌, false, not, ltb, ◌&&◌, ◌+◌, ◌==◌,
}

-- The processors. The two files differ in the rates of the internal oscillator and in the prescaler.
pub data Target : Type 0 where
  samv71q21 samrh71f20 : Target

-- The values of `Pmc_MainckSrc`, `Pmc_RcOscFreq`, `Pmc_MasterckSrc`, `Pmc_MasterckPresc` and
-- `Pmc_MasterckDiv` that the code names.
pub data MainckSrc : Type 0 where
  rc_osc x_osc x_osc_bypassed : MainckSrc

pub data RcOscFreq : Type 0 where
  rc_4m rc_8m rc_10m rc_12m : RcOscFreq

pub data MasterckSrc : Type 0 where
  slck mainck pllack : MasterckSrc

pub data MasterckPresc : Type 0 where
  presc_1 presc_2 presc_3 presc_4 presc_8 presc_16 presc_32 presc_64 : MasterckPresc

pub data MasterckDiv : Type 0 where
  div_1 div_2 : MasterckDiv

-- The part of `Pmc_Config` that decides on the frequencies.
pub record PmcConfig : Type 0 where
  pub main_src : MainckSrc
  pub rc_osc_freq : RcOscFreq
  pub plla_mul : ℕ
  pub plla_div : ℕ
  pub master_src : MasterckSrc
  pub presc : MasterckPresc
  pub divider : MasterckDiv

abbrev pub mega_hz : ℕ
mega_hz = 1000000

-- The rate of the internal oscillator, 0 for one that the processor does not have.
unfoldable pub rc_frequency : Target → RcOscFreq → ℕ
rc_frequency _ rc_4m = 4 * mega_hz
rc_frequency _ rc_8m = 8 * mega_hz
rc_frequency _ rc_12m = 12 * mega_hz
rc_frequency samrh71f20 rc_10m = 10 * mega_hz
rc_frequency samv71q21 rc_10m = 0

-- `extract_main_oscillator_frequency`, with the crystals that it assumes unless they are defined.
unfoldable pub extract_main_oscillator_frequency : Target → PmcConfig → ℕ
extract_main_oscillator_frequency target c = elim c.main_src [
  | x_osc ↦ 12 * mega_hz
  | x_osc_bypassed ↦ 10 * mega_hz
  | rc_osc ↦ rc_frequency target c.rc_osc_freq
]

abbrev pub is_pllack : MasterckSrc → Bool
is_pllack pllack = true
is_pllack _ = false

-- `apply_plla_config`
unfoldable pub apply_plla_config : PmcConfig → ℕ → ℕ
apply_plla_config c mck_frequency =
    if not (is_pllack c.master_src)
    then mck_frequency
    else if ltb 0 c.plla_div && ltb 0 c.plla_mul
    then u64 (mck_frequency / c.plla_div * (c.plla_mul + 1))
    else if (c.plla_div == 0) && ltb 0 c.plla_mul
    then u64 (mck_frequency * (c.plla_mul + 1))
    else if ltb 0 c.plla_div && (c.plla_mul == 0)
    then mck_frequency / c.plla_div
    else mck_frequency

-- The switch on the prescaler. A division by 3 is only compiled for the SAMV71.
unfoldable pub prescale : Target → MasterckPresc → ℕ → ℕ
prescale _ presc_1 f = f
prescale _ presc_2 f = f / 2
prescale samv71q21 presc_3 f = f / 3
prescale samrh71f20 presc_3 f = f
prescale _ presc_4 f = f / 4
prescale _ presc_8 f = f / 8
prescale _ presc_16 f = f / 16
prescale _ presc_32 f = f / 32
prescale _ presc_64 f = f / 64

-- `SamV71Core_GetProcessorClockFrequency` and `SamRH71Core_GetProcessorClockFrequency`
unfoldable pub get_processor_clock_frequency : Target → PmcConfig → ℕ
get_processor_clock_frequency target c =
    prescale target c.presc (apply_plla_config c (extract_main_oscillator_frequency target c))

-- `SamV71Core_GetMasterClockFrequency` and `SamRH71Core_GetMasterClockFrequency`
unfoldable pub get_master_clock_frequency : Target → PmcConfig → ℕ
get_master_clock_frequency target c = elim c.divider [
  | div_1 ↦ get_processor_clock_frequency target c
  | div_2 ↦ get_processor_clock_frequency target c / 2
]

-- The reload value of `SamV71Core_InitSystick` and `SamRH71Core_InitSystick`.
unfoldable pub systick_reload : Target → PmcConfig → ℕ → ℕ
systick_reload target c microseconds_per_tick =
    u32 (u64 (get_processor_clock_frequency target c * microseconds_per_tick) / 1000000)

-- The frequencies of the processor that can be chosen: SAMV71_CPU_FREQUENCY_*.
pub data FrequencyV71 : Type 0 where
  v71_150mhz v71_120mhz v71_100mhz v71_75mhz v71_50mhz v71_25mhz : FrequencyV71

abbrev pub config_v71 : ℕ → ℕ → MasterckPresc → MasterckDiv → PmcConfig
config_v71 mul div presc divider = record {
  main_src = rc_osc;
  rc_osc_freq = rc_12m;
  plla_mul = mul;
  plla_div = div;
  master_src = pllack;
  presc = presc;
  divider = divider;
}

unfoldable pub preset_v71 : FrequencyV71 → PmcConfig
preset_v71 v71_150mhz = config_v71 24 1 presc_2 div_2
preset_v71 v71_120mhz = config_v71 29 1 presc_3 div_2
preset_v71 v71_100mhz = config_v71 24 1 presc_3 div_2
preset_v71 v71_75mhz = config_v71 24 1 presc_4 div_2
preset_v71 v71_50mhz = config_v71 24 2 presc_3 div_2
preset_v71 v71_25mhz = config_v71 24 4 presc_3 div_1

-- SAMRH71_CPU_FREQUENCY_*
pub data FrequencyRh71 : Type 0 where
  rh71_100mhz rh71_90mhz rh71_80mhz rh71_75mhz rh71_60mhz rh71_50mhz rh71_25mhz : FrequencyRh71

-- `internal` is SAMRH71_USE_INTERNAL_RC.
abbrev pub config_rh71 : Bool → ℕ → ℕ → MasterckPresc → MasterckDiv → PmcConfig
config_rh71 internal mul div presc divider = record {
  main_src = if internal then rc_osc else x_osc_bypassed;
  rc_osc_freq = rc_10m;
  plla_mul = mul;
  plla_div = div;
  master_src = pllack;
  presc = presc;
  divider = divider;
}

unfoldable pub preset_rh71 : Bool → FrequencyRh71 → PmcConfig
preset_rh71 internal rh71_100mhz = config_rh71 internal 19 1 presc_2 div_2
preset_rh71 internal rh71_90mhz = config_rh71 internal 17 1 presc_2 div_2
preset_rh71 internal rh71_80mhz = config_rh71 internal 15 1 presc_2 div_2
preset_rh71 internal rh71_75mhz = config_rh71 internal 14 1 presc_2 div_2
preset_rh71 internal rh71_60mhz = config_rh71 internal 23 2 presc_2 div_2
preset_rh71 internal rh71_50mhz = config_rh71 internal 24 5 presc_1 div_1
preset_rh71 internal rh71_25mhz = config_rh71 internal 24 5 presc_2 div_1
