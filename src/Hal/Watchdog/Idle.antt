-- ===== src/Hal/Watchdog/Idle.antt =====
-- When the idle task resets the watchdog.
use taste_samx_rtems_runtime.Common.{
  Bool, List, not, ℕ, ◌≡◌, false, if◌then◌else◌, suc, true, Bool-cases, replicate, ◌∷◌, [], inl,
  refl, some, arith, ◌++◌, inr, zero, ◌∙◌, ap,
}
use taste_samx_rtems_runtime.Hal.Watchdog.{
  Build, idle_task, init_setup_watchdog, wdt_config, Watchdog, WdtEvent, with_init, WdtConfig,
  no_init, wdt_init, initial_watchdog, wdt_reset, wdt_set_config,
}

-- Whether the watchdog runs after the set-up, and whether the idle task resets it.
abbrev pub runs : Build → Bool → Bool
runs no_init disabled = not disabled
runs (with_init use_watchdog) disabled = use_watchdog

abbrev pub feeds : Build → Bool → Bool
feeds no_init disabled = not disabled
feeds (with_init use_watchdog) disabled = false

-- The history at which the configuration is read.
abbrev pub at_reading : Build → List WdtEvent
at_reading no_init = wdt_init ∷ []
at_reading (with_init use_watchdog) = wdt_set_config (wdt_config use_watchdog) ∷ wdt_init ∷ []

idle_task-enabled :
    (n : ℕ) (s : Watchdog)
    → (idle_task n s).idle_task_is_watchdog_enabled ≡ s.idle_task_is_watchdog_enabled
unfolding idle_task
idle_task-enabled zero s = refl
idle_task-enabled (suc n) s = elim (Bool-cases ((idle_task n s).idle_task_is_watchdog_enabled)) [
  | inl on ↦ ground (arith, on, idle_task-enabled n s)
  | inr off ↦ ground (arith, off, idle_task-enabled n s)
]

idle_task-calls :
    (n : ℕ) (s : Watchdog)
    → (idle_task n s).calls
      ≡ (if s.idle_task_is_watchdog_enabled then replicate n wdt_reset ++ s.calls else s.calls)
unfolding idle_task
idle_task-calls zero s = ground arith
idle_task-calls (suc n) s = ground (arith, idle_task-enabled n s, idle_task-calls n s)

passed :
    (existing : List WdtEvent → WdtConfig) (use_watchdog : Bool) (s : Watchdog)
    → init_setup_watchdog existing (with_init use_watchdog) initial_watchdog ≡ some s
    → (not (existing (at_reading (with_init use_watchdog))).is_disabled ≡ use_watchdog)
      × (s.idle_task_is_watchdog_enabled ≡ false)
unfolding init_setup_watchdog wdt_config
passed existing true s e = (ground (arith, e), ground (arith, e))
passed existing false s e = (ground (arith, e), ground (arith, e))

-- If the set-up returns, then the watchdog runs as the build asks: with RT_RTOS_NO_INIT as it was
-- found, otherwise exactly with RT_RTOS_USE_WATCHDOG. In each round the idle task resets it with
-- RT_RTOS_NO_INIT while it runs, and in no round otherwise, so with RT_RTOS_USE_WATCHDOG it runs and is
-- never reset by the idle task.
pub init_setup_watchdog-idle :
    (existing : List WdtEvent → WdtConfig) (build : Build) (s : Watchdog) (n : ℕ)
    → init_setup_watchdog existing build initial_watchdog ≡ some s
    → (let disabled = (existing (at_reading build)).is_disabled in
        (not disabled ≡ runs build disabled)
        × ((idle_task n s).calls
            ≡ (if feeds build disabled then replicate n wdt_reset ++ s.calls else s.calls)))
unfolding init_setup_watchdog wdt_config
init_setup_watchdog-idle existing no_init s n e =
    let found = (existing (wdt_init ∷ [])).is_disabled in
    let enabled : s.idle_task_is_watchdog_enabled ≡ not found = ground (arith, e) in
    (
      refl,
      idle_task-calls n s
          ∙ ap (λ b. if b then replicate n wdt_reset ++ s.calls else s.calls) enabled,
    )
init_setup_watchdog-idle existing (with_init use_watchdog) s n e =
    let (disabled, off) = passed existing use_watchdog s e in
    (
      disabled,
      idle_task-calls n s ∙ ap (λ b. if b then replicate n wdt_reset ++ s.calls else s.calls) off,
    )
