-- ===== src/Core/Tests.antt =====
-- The clocks and regions on concrete values.
use taste_samx_rtems_runtime.Common.{◌∷◌, [], ◌≡◌, none, refl}
use taste_samx_rtems_runtime.Core.Regions.{disable_all, initial_mpu, disable_all-numbered}

disable_all-numbered_example :
    disable_all 0x1F
      ((0x20400000, 10)
        ∷ (0x20400400, 10)
        ∷ (0x20400800, 10)
        ∷ (0x20400C00, 10)
        ∷ (0x20401000, 10)
        ∷ [])
      (initial_mpu)
    ≡ none
disable_all-numbered_example =
    disable_all-numbered 0x1F
      ((0x20400000, 10)
        ∷ (0x20400400, 10)
        ∷ (0x20400800, 10)
        ∷ (0x20400C00, 10)
        ∷ (0x20401000, 10)
        ∷ [])
      refl
