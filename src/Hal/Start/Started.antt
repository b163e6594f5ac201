-- ===== src/Hal/Start/Started.antt =====
-- The state that Hal_Init leaves on a SAMV71.
use taste_samx_rtems_runtime.Core.Config.RequestedV71.{configure_v71-first}
use taste_samx_rtems_runtime.Core.Clock.Nominal.{nominal_v71}
use taste_samx_rtems_runtime.Core.Init.Started.{timer_calls, first_calls, init_v71-calls}
use taste_samx_rtems_runtime.Core.Config.Chosen.{first_defined}
use taste_samx_rtems_runtime.Hal.Start.{hal_init, init_timer, v71, initial_hal, timer_setup}
use taste_samx_rtems_runtime.Core.Clock.{samv71q21}
use taste_samx_rtems_runtime.Hal.Watchdog.{
  WdtEvent, WdtConfig, wdt_set_config, init_setup_watchdog, wdt_config, with_init, initial_watchdog,
  wdt_get_config, wdt_init,
}
use taste_samx_rtems_runtime.Common.{
  List, ℕ, ◌≡◌, some, ◌*◌, ◌^◌, ◌/◌, ◌∷◌, refl, true, Bool, ◌≤◌, false, [], ◌∙◌, ap, Option, none,
}
use taste_samx_rtems_runtime.Core.Init.{
  Board, BoardCall, pmc_set_config_v71, enable_peripheral_clk, enable_peripheral_clock, init_v71,
  pmc_set_config_rh71, pmc_set_pck_config, pmc_init,
}
use taste_samx_rtems_runtime.Hal.Time.{tick_length, set_ns_per_tick_q32}
use taste_samx_rtems_runtime.Core.Clock.{
  FrequencyV71, get_master_clock_frequency, get_processor_clock_frequency, preset_v71, v71_150mhz,
  prescale, v71_120mhz, apply_plla_config, v71_100mhz, extract_main_oscillator_frequency, v71_75mhz,
  rc_frequency, v71_50mhz, v71_25mhz,
}
use taste_samx_rtems_runtime.Core.Config.V71

-- The master clock of each frequency of the processor.
abbrev pub master_hz : FrequencyV71 → ℕ
master_hz v71_150mhz = 75000000
master_hz v71_120mhz = 60000000
master_hz v71_100mhz = 50000000
master_hz v71_75mhz = 37500000
master_hz v71_50mhz = 25000000
master_hz v71_25mhz = 25000000

preset_v71-master :
    (f : FrequencyV71) → get_master_clock_frequency samv71q21 (preset_v71 f) ≡ master_hz f
unfolding get_master_clock_frequency get_processor_clock_frequency preset_v71 prescale
    apply_plla_config extract_main_oscillator_frequency rc_frequency
preset_v71-master v71_150mhz = refl
preset_v71-master v71_120mhz = refl
preset_v71-master v71_100mhz = refl
preset_v71-master v71_75mhz = refl
preset_v71-master v71_50mhz = refl
preset_v71-master v71_25mhz = refl

-- The length of a tick of the timer, which counts the master clock divided by 8, in units of
-- 2^-32 nanoseconds.
abbrev pub tick_q32 : FrequencyV71 → ℕ
tick_q32 f = 1000000000 * 2 ^ 32 / (master_hz f / 8)

tick_length-master :
    (f : FrequencyV71) → tick_length (master_hz f) ≡ some (set_ns_per_tick_q32 (tick_q32 f))
unfolding tick_length
tick_length-master v71_150mhz = refl
tick_length-master v71_120mhz = refl
tick_length-master v71_100mhz = refl
tick_length-master v71_75mhz = refl
tick_length-master v71_50mhz = refl
tick_length-master v71_25mhz = refl

-- The latest configuration of the power management controller of a SAMV71 that a history asks for,
-- if no other one is asked for after it.
abbrev pub last_config : List BoardCall → Option V71.Settings
last_config [] = none
last_config (pmc_set_config_v71 c timeout ∷ h) = some c
last_config (pmc_set_config_rh71 c timeout ∷ h) = none
last_config (pmc_set_pck_config i source timeout ∷ h) = none
last_config (pmc_init ∷ h) = none
last_config (_ ∷ h) = last_config h

-- What the board library is relied on for: the driver of the watchdog reads back what was set, the
-- power management controller accepts the settings and reads back the latest configuration that was
-- set, and a clock that was just enabled is enabled.
pub record IsReliable (B : Board) (existing : List WdtEvent → WdtConfig) (c : V71.Settings)
    : Type 0 where
  pub watchdog : (w : WdtConfig) (h : List WdtEvent) → existing (wdt_set_config w ∷ h) ≡ w
  pub accepts : (h : List BoardCall) → B.accepts_v71 c h ≡ true
  pub reads :
      (h : List BoardCall) (set_config : V71.Settings)
      → last_config h ≡ some set_config
      → B.config h ≡ set_config.pmc
  pub enabled :
      (i : ℕ) (h : List BoardCall)
      → B.is_peripheral_clk_enabled i (enable_peripheral_clk i ∷ h) ≡ true

init_setup_watchdog-set :
    (existing : List WdtEvent → WdtConfig) (use_watchdog : Bool)
    → ((w : WdtConfig) (h : List WdtEvent) → existing (wdt_set_config w ∷ h) ≡ w)
    → init_setup_watchdog existing (with_init use_watchdog) initial_watchdog
      ≡ some (record {
        idle_task_is_watchdog_enabled = false;
        calls = wdt_get_config ∷ wdt_set_config (wdt_config use_watchdog) ∷ wdt_init ∷ [];
      })
unfolding init_setup_watchdog wdt_config
init_setup_watchdog-set existing true reads = rw (reads (wdt_config true) (wdt_init ∷ [])) refl
init_setup_watchdog-set existing false reads = rw (reads (wdt_config false) (wdt_init ∷ [])) refl

module _ (B : Board) (existing : List WdtEvent → WdtConfig) (peripheral irq : ℕ) where
  -- A build for a SAMV71 that compiles and names a frequency, on a reliable board library, with ticks
  -- of RTEMS of up to 111 milliseconds: Hal_Init fails no assertion. The watchdog is set up as the
  -- build wants it, the processor is started with this frequency, then the clock of the timer is
  -- enabled, its handler installed and the timer started; no reload is counted, and the length of a
  -- tick is 10^9 * 2^32 by an eighth of the master clock of this frequency.
  pub hal_init-Started :
      (d : V71.Macros) (f : FrequencyV71) (c : V71.Settings) (use_watchdog : Bool)
      → first_defined d.cpu_frequency V71.frequencies ≡ some f
      → V71.configure d ≡ some c
      → IsReliable B existing c
      → B.microseconds_per_tick ≤ 111000
      → hal_init B existing peripheral irq (with_init use_watchdog) (v71 c) initial_hal
        ≡ some (record {
          watchdog = record {
            idle_task_is_watchdog_enabled = false;
            calls = wdt_get_config ∷ wdt_set_config (wdt_config use_watchdog) ∷ wdt_init ∷ [];
          };
          board = timer_setup irq (
              enable_peripheral_clk peripheral
              ∷ timer_calls
                  (nominal_v71 f)
                  B.microseconds_per_tick
                  (pmc_set_config_v71 c 1000000 ∷ first_calls));
          reloads = record { reloads_counter = 0; reloads_modified = false };
          main_clock_frequency = master_hz f;
          ticks = set_ns_per_tick_q32 (tick_q32 f);
        })
  unfolding hal_init init_timer enable_peripheral_clock
  hal_init-Started d f c use_watchdog first compiles reliable short =
      let us : ℕ = B.microseconds_per_tick in
      let base : List BoardCall = pmc_set_config_v71 c 1000000 ∷ first_calls in
      let h1 : List BoardCall = timer_calls (nominal_v71 f) us base in
      let h2 : List BoardCall = enable_peripheral_clk peripheral ∷ h1 in
      let started : init_v71 B false c [] ≡ some h1 =
        init_v71-calls B d f c first compiles
          (λ h. reliable.reads (pmc_set_config_v71 c 1000000 ∷ h) c refl) short
        ∙ rw (reliable.accepts first_calls) refl in
      let later : B.config (timer_setup irq h2) ≡ c.pmc =
        reliable.reads (timer_setup irq h2) c refl in
      let master : get_master_clock_frequency samv71q21 (B.config (timer_setup irq h2))
          ≡ master_hz f =
        ap (get_master_clock_frequency samv71q21)
          (later ∙ (configure_v71-first d f c first compiles).0)
        ∙ preset_v71-master f in
      rw
        (
          init_setup_watchdog-set existing use_watchdog reliable.watchdog,
          started,
          reliable.enabled peripheral h1,
          master,
          tick_length-master f,
        )
        refl
