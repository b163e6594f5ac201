-- ===== src/Hal/Tests.antt =====
-- The elapsed time at 150 MHz, and an array of two semaphores.
use taste_samx_rtems_runtime.Core.Config.V71
use taste_samx_rtems_runtime.Core.Init.Started.{timer_calls, first_calls}
use taste_samx_rtems_runtime.Core.Config.RequestedV71.{settings_for, build_for, configure-build_for}
use taste_samx_rtems_runtime.Core.Clock.{PmcConfig, preset_v71, v71_100mhz, v71_25mhz}
use taste_samx_rtems_runtime.Hal.Start.{hal_init, initial_hal, v71, timer_setup}
use taste_samx_rtems_runtime.Hal.Start.Started.{IsReliable, tick_q32, hal_init-Started, last_config}
use taste_samx_rtems_runtime.Core.Init.{Board, BoardCall, enable_peripheral_clk, pmc_set_config_v71}
use taste_samx_rtems_runtime.Hal.Watchdog.Idle.{init_setup_watchdog-idle}
use taste_samx_rtems_runtime.Hal.Watchdog.{
  Watchdog, WdtEvent, init_setup_watchdog, WdtConfig, wdt_config, wdt_get_config, idle_task,
  wdt_set_config, with_init, initial_watchdog, wdt_init,
}
use taste_samx_rtems_runtime.Hal.Time.{Round}
use taste_samx_rtems_runtime.Hal.Time.Snapshot.{snapshot-first_quiet}
use taste_samx_rtems_runtime.Hal.Time.Split.{
  elapsed_time_in_ns_monotone, elapsed_time_in_ns-product,
}
use taste_samx_rtems_runtime.Common.Word.{u64}
use taste_samx_rtems_runtime.Hal.Semaphores.Full.{create_all, create_all-obtain}
use taste_samx_rtems_runtime.Hal.Semaphores.{
  SemaphoreWorld, Semaphores, semaphore_obtain, semaphore_release,
}
use taste_samx_rtems_runtime.Hal.Time.{
  elapsed_time_in_ns, snapshot, tick_length, set_ns_per_tick_q32, total_ticks,
}
use taste_samx_rtems_runtime.Common.{
  List, ℕ, some, true, ◌∷◌, [], length, ◌≡◌, ◌≤◌, false, refl, ◌+◌, arith, inl, ◌*◌, ◌/◌, ◌^◌, not,
  none, ap, Option,
}

-- 53.33 ns for each tick of 150 MHz / 8.
abbrev tick : ℕ
tick = 229064922453

tick_length_at_150_mhz : tick_length 150000000 ≡ some (set_ns_per_tick_q32 tick)
unfolding tick_length set_ns_per_tick_q32
tick_length_at_150_mhz = refl

elapsed_time_in_ns-product_example :
    elapsed_time_in_ns (set_ns_per_tick_q32 tick) 3 7 ≡ u64 (total_ticks 3 7 * tick / 2 ^ 32)
elapsed_time_in_ns-product_example = elapsed_time_in_ns-product tick 3 7 (omega arith)

elapsed_time_in_ns_monotone_example :
    elapsed_time_in_ns (set_ns_per_tick_q32 tick) 3 65535
    ≤ elapsed_time_in_ns (set_ns_per_tick_q32 tick) 4 0
elapsed_time_in_ns_monotone_example =
    elapsed_time_in_ns_monotone tick 3 65535 4 0 (omega arith) (omega arith) (omega arith)
      (omega arith) (omega arith) (inl (omega arith))

-- The timer interrupts in the first round, between the two reads.
abbrev rounds : List Round
rounds =
    record { before_reloads = 0; before_ticks = 1; before_check = 0; ticks = 2 }
    ∷ record { before_reloads = 0; before_ticks = 0; before_check = 0; ticks = 5 }
    ∷ []

snapshot-first_quiet_example :
    snapshot rounds (record { reloads_counter = 9; reloads_modified = true }) ≡ some (10, 5)
snapshot-first_quiet_example =
    snapshot-first_quiet rounds (record { reloads_counter = 9; reloads_modified = true })
      (omega arith)

abbrev generous : SemaphoreWorld
generous = record {
  created = λ es. some (length es + 1);
  obtained = λ es id. true;
  released = λ es id. true;
}

abbrev none_yet : Semaphores
none_yet = record { created_count = 0; ids = 0 ∷ 0 ∷ []; name = 0; history = [] }

create_all-obtain_example :
    (semaphore_obtain generous 1 (create_all generous 2 none_yet)
      ≡ (false, create_all generous 2 none_yet))
    × (semaphore_release generous 1 (create_all generous 2 none_yet)
        ≡ (false, create_all generous 2 none_yet))
create_all-obtain_example =
    create_all-obtain generous (λ es. length es + 1) (λ es. refl) 2 none_yet refl (omega arith) 1

-- A controller that takes the configuration that it is given.
abbrev obedient : List WdtEvent → WdtConfig
obedient (wdt_set_config c ∷ es) = c
obedient es = wdt_config false

abbrev set_up : Watchdog
set_up = record {
  idle_task_is_watchdog_enabled = false;
  calls = wdt_get_config ∷ wdt_set_config (wdt_config true) ∷ wdt_init ∷ [];
}

set_up_returns : init_setup_watchdog obedient (with_init true) initial_watchdog ≡ some set_up
unfolding init_setup_watchdog wdt_config
set_up_returns = refl

init_setup_watchdog-idle_example :
    (not (wdt_config true).is_disabled ≡ true) × ((idle_task 5 set_up).calls ≡ set_up.calls)
init_setup_watchdog-idle_example =
    init_setup_watchdog-idle obedient (with_init true) set_up 5 set_up_returns

-- The board of the tests: the configuration that was set last, on which everything succeeds.
abbrev config_set : List BoardCall → PmcConfig
config_set h = elim (last_config h) [ none ↦ preset_v71 v71_25mhz | some c ↦ c.pmc ]

abbrev board : Board
board = record {
  accepts_v71 = λ c h. true;
  accepts_rh71 = λ c h. true;
  accepts_pck = λ i c t h. true;
  config = config_set;
  is_peripheral_clk_enabled = λ i h. true;
  microseconds_per_tick = 10000;
  protected_region_count = 2;
}

abbrev wdt_read : List WdtEvent → WdtConfig
wdt_read (wdt_set_config w ∷ h) = w
wdt_read _ = wdt_config false

config_set-last :
    (h : List BoardCall) (c : V71.Settings) → last_config h ≡ some c → config_set h ≡ c.pmc
config_set-last h c e =
    ap
      (λ (o : Option V71.Settings). elim o as (λ _. PmcConfig) [
        | none ↦ preset_v71 v71_25mhz
        | some c ↦ c.pmc
      ])
      e

abbrev reliable_board : IsReliable board wdt_read (settings_for v71_100mhz)
reliable_board = record {
  watchdog = λ w h. refl;
  accepts = λ h. refl;
  reads = config_set-last;
  enabled = λ i h. refl;
}

hal_init-Started_example :
    hal_init board wdt_read 23 23 (with_init true) (v71 (settings_for v71_100mhz)) initial_hal
    ≡ some (record {
      watchdog = record {
        idle_task_is_watchdog_enabled = false;
        calls = wdt_get_config ∷ wdt_set_config (wdt_config true) ∷ wdt_init ∷ [];
      };
      board = timer_setup 23 (
          enable_peripheral_clk 23
          ∷ timer_calls 100 10000
              (pmc_set_config_v71 (settings_for v71_100mhz) 1000000 ∷ first_calls));
      reloads = record { reloads_counter = 0; reloads_modified = false };
      main_clock_frequency = 50000000;
      ticks = set_ns_per_tick_q32 (tick_q32 v71_100mhz);
    })
hal_init-Started_example =
    hal_init-Started board wdt_read 23 23 (build_for v71_100mhz) v71_100mhz
      (settings_for v71_100mhz) true refl (configure-build_for v71_100mhz) reliable_board
      (omega arith)
