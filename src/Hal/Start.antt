-- ===== src/Hal/Start.antt =====
-- The set-up of the hardware in src/Hal/Hal.c: Hal_Init with all that it calls, and the sleep.
pub mod Started
use taste_samx_rtems_runtime.Hal.Time.{Reloads, TickLength, tick_length}
use taste_samx_rtems_runtime.Core.Clock.{samv71q21, samrh71f20}
use taste_samx_rtems_runtime.Core.Init.{
  Board, BoardCall, tic_trigger_channel, enable_peripheral_clock, init_v71, tic_set_channel_config,
  init_rh71, tic_write_protect, tic_init, vector_enable, handler_install,
}
use taste_samx_rtems_runtime.Hal.Watchdog.{
  Build, Watchdog, initial_watchdog, WdtEvent, WdtConfig, with_init, no_init, init_setup_watchdog,
}
use taste_samx_rtems_runtime.Core.Clock.{Target, get_master_clock_frequency}
use taste_samx_rtems_runtime.Core.Config.Rh71
use taste_samx_rtems_runtime.Core.Config.V71
use taste_samx_rtems_runtime.Common.{◌>>=◌, ℕ, Bool, List, [], false, true, Option, ◌∷◌, some}

-- The processor that the runtime is built for, with the settings that its macros choose.
pub data Processor : Type 0 where
  v71 : V71.Settings → Processor
  rh71 : Rh71.Settings → Processor

abbrev pub target : Processor → Target
target (v71 c) = samv71q21
target (rh71 c) = samrh71f20

abbrev pub is_no_init : Build → Bool
is_no_init no_init = true
is_no_init (with_init _) = false

-- The static variables that the set-up writes, and the calls of the board library.
pub record HalState : Type 0 where
  pub watchdog : Watchdog
  pub board : List BoardCall
  pub reloads : Reloads
  pub main_clock_frequency : ℕ
  pub ticks : TickLength

abbrev pub initial_hal : HalState
initial_hal = record {
  watchdog = initial_watchdog;
  board = [];
  reloads = record { reloads_counter = 0; reloads_modified = false };
  main_clock_frequency = 0;
  ticks = record { ns_per_tick_q32 = 0; ns_per_tick_q32_hi = 0; ns_per_tick_q32_lo = 0 };
}

-- `Hal_SetReloadsCounter`
unfoldable pub set_reloads_counter : ℕ → HalState → HalState
set_reloads_counter value s = record s { reloads = record s.reloads { reloads_counter = value } }

-- The calls of Hal_InitTimer behind the clock of the timer, the newest first, on the interrupt `irq`.
abbrev pub timer_setup : ℕ → List BoardCall → List BoardCall
timer_setup irq h =
    tic_trigger_channel
    ∷ tic_set_channel_config 65535
    ∷ tic_write_protect false
    ∷ tic_init
    ∷ vector_enable irq
    ∷ handler_install irq
    ∷ h

-- The numbers of the timer in the board library, the board, and the configuration that
-- `Wdt_getConfig` reads after a history of calls.
module _ (B : Board) (existing : List WdtEvent → WdtConfig) (peripheral irq : ℕ) where
  -- `Hal_InitTimer`
  unfoldable pub init_timer : HalState → Option HalState
  init_timer s = do
    h ← enable_peripheral_clock B peripheral s.board
    some
        (record s { reloads = record s.reloads { reloads_counter = 0 }; board = timer_setup irq h })

  unfoldable pub core_init : Build → Processor → List BoardCall → Option (List BoardCall)
  core_init build (v71 c) h = init_v71 B (is_no_init build) c h
  core_init build (rh71 c) h = init_rh71 B (is_no_init build) c h

  -- `Hal_Init`. `none` is a failed assertion or the division by zero.
  unfoldable pub hal_init : Build → Processor → HalState → Option HalState
  unfolding core_init
  hal_init build p s = do
    w ← init_setup_watchdog existing build s.watchdog
    h ← core_init build p s.board
    s1 ← init_timer (record s { watchdog = w; board = h })
    let f = get_master_clock_frequency (target p) (B.config s1.board)
    q ← tick_length f
    some (record s1 { main_clock_frequency = f; ticks = q })

-- The floating-point numbers of `Hal_SleepNs`.
pub record Doubles : Type 1 where
  pub Double : Type 0
  pub of_nat : ℕ → Double
  pub multiply : Double → Double → Double
  pub divide : Double → Double → Double
  -- the conversion to `rtems_interval`
  pub to_interval : Double → ℕ

-- `Hal_SleepNs`: the interval in ticks that RTEMS is asked to wait, and whether it did; `woken` is
-- what `rtems_task_wake_after` reports.
unfoldable pub sleep_ns : Doubles → (ℕ → Bool) → HalState → ℕ → ℕ × Bool
sleep_ns D woken s time_ns =
    let sleep_tick_count =
      D.multiply (D.of_nat time_ns)
        (D.divide (D.of_nat s.main_clock_frequency) (D.of_nat 1000000000)) in
    (D.to_interval sleep_tick_count, woken (D.to_interval sleep_tick_count))
