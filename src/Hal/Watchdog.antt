-- ===== src/Hal/Watchdog.antt =====
-- The set-up of the watchdog in src/Hal/Hal.c, and the idle task that resets it.
pub mod Idle
use taste_samx_rtems_runtime.Common.{
  Bool, List, false, ℕ, ◌∷◌, Option, [], not, suc, if◌then◌else◌, some, true, none, zero,
}

-- How the runtime is built: with RT_RTOS_NO_INIT, or without it and with RT_RTOS_USE_WATCHDOG or not.
pub data Build : Type 0 where
  no_init : Build
  with_init : Bool → Build

-- `Wdt_Config`
pub record WdtConfig : Type 0 where
  pub counter_value : ℕ
  pub delta_value : ℕ
  pub is_reset_enabled : Bool
  pub is_fault_interrupt_enabled : Bool
  pub is_disabled : Bool
  pub is_halted_on_idle : Bool
  pub is_halted_on_debug : Bool

-- The calls of the driver of the watchdog.
pub data WdtEvent : Type 0 where
  wdt_init wdt_get_config wdt_reset : WdtEvent
  wdt_set_config : WdtConfig → WdtEvent

-- `idleTaskIsWatchdogEnabled` and the calls, latest first.
pub record Watchdog : Type 0 where
  pub idle_task_is_watchdog_enabled : Bool
  pub calls : List WdtEvent

-- The state at start.
abbrev pub initial_watchdog : Watchdog
initial_watchdog = record { idle_task_is_watchdog_enabled = false; calls = [] }

-- `wdtConfig` with RT_RTOS_USE_WATCHDOG or without it.
unfoldable pub wdt_config : Bool → WdtConfig
wdt_config use_watchdog = record {
  counter_value = 0x0FFF;
  delta_value = 0x0FFF;
  is_reset_enabled = use_watchdog;
  is_fault_interrupt_enabled = false;
  is_disabled = not use_watchdog;
  is_halted_on_idle = false;
  is_halted_on_debug = true;
}

abbrev pub equal : Bool → Bool → Bool
equal true b = b
equal false b = not b

abbrev pub called : WdtEvent → Watchdog → Watchdog
called e s = record s { calls = e ∷ s.calls }

-- The configuration that `Wdt_getConfig` reads after a history of calls is the argument `existing`.
module _ (existing : List WdtEvent → WdtConfig) where
  -- `Init_setup_watchdog`. `none` is a failed assertion.
  unfoldable pub init_setup_watchdog : Build → Watchdog → Option Watchdog
  init_setup_watchdog no_init s0 =
      let s1 = called wdt_init s0 in
      let s2 = called wdt_get_config s1 in
      some (
        if not (existing s1.calls).is_disabled
        then record s2 { idle_task_is_watchdog_enabled = true }
        else s2)
  init_setup_watchdog (with_init use_watchdog) s0 =
      let s1 = called (wdt_set_config (wdt_config use_watchdog)) (called wdt_init s0) in
      let c = existing s1.calls in
      if not (equal c.is_disabled (wdt_config use_watchdog).is_disabled)
      then none
      else if not (equal c.is_reset_enabled (wdt_config use_watchdog).is_reset_enabled)
      then none
      else some (called wdt_get_config s1)

-- So many rounds of `Hal_IdleTask`.
unfoldable pub idle_task : ℕ → Watchdog → Watchdog
idle_task zero s = s
idle_task (suc n) s =
    let s' = idle_task n s in if s'.idle_task_is_watchdog_enabled then called wdt_reset s' else s'
