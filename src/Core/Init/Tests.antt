-- ===== src/Core/Init/Tests.antt =====
-- The start of a processor on concrete values.
use taste_samx_rtems_runtime.Core.Init.Started.{
  matrix_calls, timer_calls, first_calls, init_rh71-calls,
}
use taste_samx_rtems_runtime.Core.Clock.{PmcConfig, rh71_100mhz, v71_25mhz}
use taste_samx_rtems_runtime.Core.Names.{
  AllDistinct, generate_all, initial_names, generate_all-distinct,
}
use taste_samx_rtems_runtime.Core.Init.{
  Board, init_rh71, BoardCall, pmc_set_config_v71, pmc_set_config_rh71,
}
use taste_samx_rtems_runtime.Common.{List, false, true, ◌∷◌, [], ◌≡◌, refl, some, arith}
use taste_samx_rtems_runtime.Core.Config.RequestedRh71
use taste_samx_rtems_runtime.Core.Config.RequestedV71

-- The configuration that was set last.
abbrev config_set : List BoardCall → PmcConfig
config_set [] = (RequestedV71.settings_for v71_25mhz).pmc
config_set (pmc_set_config_v71 c timeout ∷ h) = c.pmc
config_set (pmc_set_config_rh71 c timeout ∷ h) = c.pmc
config_set (_ ∷ h) = config_set h

abbrev board : Board
board = record {
  accepts_v71 = λ c h. true;
  accepts_rh71 = λ c h. true;
  accepts_pck = λ i c t h. true;
  config = config_set;
  is_peripheral_clk_enabled = λ i h. true;
  microseconds_per_tick = 10000;
  protected_region_count = 2;
}

init_rh71-calls_example :
    init_rh71 board false (RequestedRh71.settings_for rh71_100mhz) []
    ≡ some (
        matrix_calls 2 (
          timer_calls 100 10000
            (pmc_set_config_rh71 (RequestedRh71.settings_for rh71_100mhz) 1000000 ∷ first_calls)))
init_rh71-calls_example =
    init_rh71-calls board (RequestedRh71.build_for rh71_100mhz) rh71_100mhz
      (RequestedRh71.settings_for rh71_100mhz) refl (RequestedRh71.configure-build_for rh71_100mhz)
      (λ h. refl) (omega arith)

generate_all-distinct_example :
    AllDistinct (generate_all (true ∷ false ∷ true ∷ true ∷ []) initial_names)
generate_all-distinct_example =
    generate_all-distinct (true ∷ false ∷ true ∷ true ∷ []) (omega arith)

names_lem :
    generate_all (true ∷ false ∷ true ∷ []) initial_names
    ≡ 0x43000000 ∷ 0x44000000 ∷ 0x43000001 ∷ []
unfolding generate_all
names_lem = refl
