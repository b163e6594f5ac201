-- ===== src/Hal/Reset.antt =====
-- The reason of the last reset: src/BootHelper/BootHelper.c, which Hal_GetResetReason of
-- src/Hal/Hal.c passes on.
use taste_samx_rtems_runtime.Common.{ℕ, ◌≡◌, arith, refl}

-- The values of `Rstc_ResetType` that the code names, and the others.
pub data RstcResetType : Type 0 where
  type_powerup type_backup type_watchdog type_software type_user : RstcResetType
  type_other : ℕ → RstcResetType

-- `Reset_Reason`
pub data ResetReason : Type 0 where
  unknown powerup backup watchdog software user : ResetReason

-- `BootHelper_GetResetReason`, on what `Rstc_getLastResetType` returns.
unfoldable pub reset_reason : RstcResetType → ResetReason
reset_reason type_powerup = powerup
reset_reason type_backup = backup
reset_reason type_watchdog = watchdog
reset_reason type_software = software
reset_reason type_user = user
reset_reason (type_other _) = unknown

-- The value of the enumeration, as BootHelper.h numbers it.
abbrev pub reason_number : ResetReason → ℕ
reason_number r = elim r [
  | unknown ↦ 0
  | powerup ↦ 1
  | backup ↦ 2
  | watchdog ↦ 3
  | software ↦ 4
  | user ↦ 5
]

-- `Hal_GetResetReason`
unfoldable pub get_reset_reason : RstcResetType → ℕ
get_reset_reason t = reason_number (reset_reason t)

get_reset_reason_known : (t : RstcResetType) → get_reset_reason t ≡ 0 → (n : ℕ) × (t ≡ type_other n)
unfolding get_reset_reason reset_reason
get_reset_reason_known type_powerup h = absurd (omega (arith, h))
get_reset_reason_known type_backup h = absurd (omega (arith, h))
get_reset_reason_known type_watchdog h = absurd (omega (arith, h))
get_reset_reason_known type_software h = absurd (omega (arith, h))
get_reset_reason_known type_user h = absurd (omega (arith, h))
get_reset_reason_known (type_other n) h = (n, refl)
