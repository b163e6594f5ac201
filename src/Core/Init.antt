-- ===== src/Core/Init.antt =====
-- SamV71Core_Init and SamRH71Core_Init, with what they call, the protection of the matrix, and the
-- functions of both files that only call the board library and RTEMS.
pub mod Started
mod Tests
use taste_samx_rtems_runtime.Core.Clock.{
  Target, PmcConfig, get_processor_clock_frequency, systick_reload, samrh71f20, samv71q21,
}
use taste_samx_rtems_runtime.Core.Config.Rh71
use taste_samx_rtems_runtime.Core.Config.V71
use taste_samx_rtems_runtime.Common.{
  ◌>>=◌, Bool, List, ℕ, Option, suc, ◌∷◌, [], if◌then◌else◌, ◌+◌, some, zero, none,
}

-- `Matrix_Slave`
pub data FlexramSlave : Type 0 where
  flexram0 flexram1 flexram2 : FlexramSlave

-- The calls of the board library and of RTEMS that change something, with what varies in them. In a
-- configuration of the power management controller all programmable clocks are off.
pub data BoardCall : Type 0 where
  pmc_init mpu_init mpu_enable matrix_init : BoardCall
  pmc_set_config_v71 : V71.Settings → ℕ → BoardCall
  pmc_set_config_rh71 : Rh71.Settings → ℕ → BoardCall
  pmc_set_pck_config : ℕ → ℕ → ℕ → BoardCall
  set_core_clock_frequency : ℕ → BoardCall
  systick_init : BoardCall
  systick_set_reload : ℕ → BoardCall
  set_slave_region_protection : FlexramSlave → ℕ → BoardCall
  enable_peripheral_clk : ℕ → BoardCall
  handler_install vector_enable : ℕ → BoardCall
  tic_init tic_trigger_channel : BoardCall
  tic_write_protect : Bool → BoardCall
  -- an enabled channel on the clock divided by 8, with interrupts on overflow, by its rc
  tic_set_channel_config : ℕ → BoardCall

-- The board library and RTEMS: what they answer may depend on all calls so far, the newest first.
pub record Board : Type 0 where
  pub accepts_v71 : V71.Settings → List BoardCall → Bool
  pub accepts_rh71 : Rh71.Settings → List BoardCall → Bool
  pub accepts_pck : ℕ → ℕ → ℕ → List BoardCall → Bool
  pub config : List BoardCall → PmcConfig
  pub is_peripheral_clk_enabled : ℕ → List BoardCall → Bool
  pub microseconds_per_tick : ℕ
  pub protected_region_count : ℕ

-- `assert`
abbrev pub assert : Bool → List BoardCall → Option (List BoardCall)
assert condition h = if condition then some h else none

-- The inner loop of `SamRH71Core_InitMatrix` with the rounds that are left, from region `j` on.
unfoldable pub protect_regions : FlexramSlave → ℕ → ℕ → List BoardCall → List BoardCall
protect_regions slave zero j h = h
protect_regions slave (suc rounds) j h =
    protect_regions slave rounds (j + 1) (set_slave_region_protection slave j ∷ h)

module _ (B : Board) where
  -- `SamV71Core_InitSystick` and `SamRH71Core_InitSystick`. All fields of the configuration of the
  -- timer but its reload value are what they were.
  unfoldable pub init_systick : Target → List BoardCall → List BoardCall
  init_systick t h =
      let h1 = set_core_clock_frequency (get_processor_clock_frequency t (B.config h)) ∷ h in
      systick_set_reload (systick_reload t (B.config h) B.microseconds_per_tick) ∷ systick_init ∷ h1

  -- Its outer loop, over the slaves that are left.
  unfoldable pub protect_slaves : List FlexramSlave → List BoardCall → List BoardCall
  protect_slaves [] h = h
  protect_slaves (slave ∷ rest) h =
      protect_slaves rest (protect_regions slave B.protected_region_count 0 h)

  unfoldable pub init_matrix : List BoardCall → List BoardCall
  init_matrix h = protect_slaves (flexram0 ∷ flexram1 ∷ flexram2 ∷ []) (matrix_init ∷ h)

  -- `SamV71Core_Init`, `none` for a failed assertion. Without RT_RTOS_NO_INIT, `settings` are what the
  -- macros of the build choose.
  unfoldable pub init_v71 : Bool → V71.Settings → List BoardCall → Option (List BoardCall)
  init_v71 no_init settings h =
      let h1 = mpu_enable ∷ mpu_init ∷ pmc_init ∷ h in
      if no_init then some (init_systick samv71q21 h1) else do
        h2 ← assert (B.accepts_v71 settings h1) (pmc_set_config_v71 settings 1000000 ∷ h1)
        some (init_systick samv71q21 h2)

  -- `SamRH71Core_Init`
  unfoldable pub init_rh71 : Bool → Rh71.Settings → List BoardCall → Option (List BoardCall)
  init_rh71 no_init settings h =
      let h1 = mpu_enable ∷ mpu_init ∷ pmc_init ∷ h in
      if no_init then some (init_matrix (init_systick samrh71f20 h1)) else do
        h2 ← assert (B.accepts_rh71 settings h1) (pmc_set_config_rh71 settings 1000000 ∷ h1)
        some (init_matrix (init_systick samrh71f20 h2))

  -- `SamV71Core_EnablePeripheralClock` and `SamRH71Core_EnablePeripheralClock`
  unfoldable pub enable_peripheral_clock : ℕ → List BoardCall → Option (List BoardCall)
  enable_peripheral_clock peripheral_id h =
      let h1 = enable_peripheral_clk peripheral_id ∷ h in
      assert (B.is_peripheral_clk_enabled peripheral_id h1) h1

  -- `SamV71Core_SetPckConfig` and `SamRH71Core_SetPckConfig`, with the configuration as a number.
  unfoldable pub set_pck_config : ℕ → ℕ → ℕ → List BoardCall → Bool × List BoardCall
  set_pck_config id config timeout h =
      (B.accepts_pck id config timeout h, pmc_set_pck_config id config timeout ∷ h)

-- `SamV71Core_InterruptSubscribe` and `SamRH71Core_InterruptSubscribe`, without the handler and its
-- argument, which are passed on.
unfoldable pub interrupt_subscribe : ℕ → List BoardCall → List BoardCall
interrupt_subscribe vector h = vector_enable vector ∷ handler_install vector ∷ h
