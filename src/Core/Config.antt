-- ===== src/Core/Config.antt =====
-- How the preprocessor of src/SamV71Core/SamV71Core.c and src/SamRH71Core/SamRH71Core.c chooses the
-- configuration of the power management controller: the tests that both files repeat. `none` is an
-- `#error`.
pub mod Choice
pub mod Chosen
pub mod InternalRc
pub mod Limits
pub mod RequestedRh71
pub mod RequestedV71
pub mod Rh71
mod Tests
pub mod V71
use taste_samx_rtems_runtime.Core.Clock.{
  MainckSrc, MasterckDiv, MasterckPresc, MasterckSrc, RcOscFreq, div_1, presc_1, rc_4m, rc_osc,
  slck, div_2, mainck, presc_2, rc_8m, x_osc, pllack, presc_3, rc_10m, x_osc_bypassed, presc_4,
  rc_12m, presc_8, presc_16, presc_32, presc_64,
}
use taste_samx_rtems_runtime.Common.{
  ◌>>=◌, ◌%◌, Bool, Option, ℕ, List, false, if◌then◌else◌, some, ◌||◌, ltb, none, true, ◌&&◌, ◌==◌,
  ◌∷◌, [],
}

-- The value of a macro, negative ones included.
pub data ℤ : Type 0 where
  pos : ℕ → ℤ
  negsuc : ℕ → ℤ

-- A macro with a value: none while it is not defined.
abbrev pub is_defined {ℓ} : {A : Type ℓ} → Option A → Bool
is_defined none = false
is_defined (some _) = true

-- `#if defined(A) || defined(B) ...` over the macros of a family, each named by its value.
abbrev pub any_defined {ℓ} : {A : Type ℓ} → (A → Bool) → List A → Bool
any_defined defined [] = false
any_defined defined (x ∷ rest) = defined x || any_defined defined rest

-- `#if defined(A)`, with an error if a later macro of the family is defined too, `#elif defined(B)`,
-- and so on, and `#else` the default.
unfoldable pub exclusive {ℓ} : {A : Type ℓ} → (A → Bool) → List A → A → Option A
exclusive defined [] default_value = some default_value
exclusive defined (x ∷ rest) default_value =
    if defined x
    then if any_defined defined rest then none else some x
    else exclusive defined rest default_value

-- A family of macros, none of which can be combined with RT_RTOS_NO_INIT.
unfoldable pub family {ℓ} : {A : Type ℓ} → Bool → (A → Bool) → List A → A → Option A
family no_init defined values default_value =
    if any_defined defined values && no_init then none else exclusive defined values default_value

-- A macro with a value from 0 up to a limit.
unfoldable pub up_to : ℕ → ℤ → Option ℕ
up_to limit (pos n) = if ltb limit n then none else some n
up_to limit (negsuc n) = none

unfoldable pub bounded : Bool → Option ℤ → ℕ → ℕ → Option ℕ
bounded no_init none limit default_value = some default_value
bounded no_init (some v) limit default_value = if no_init then none else up_to limit v

-- `*_RCOSC_XOSC_STARTUP_TIME`
unfoldable pub xosc_startup_time : Bool → Option ℤ → Option ℕ
xosc_startup_time no_init macro_value = do
  n ← bounded no_init macro_value 2040 0
  if n % 8 == 0 then some n else none

-- A number for each macro of a family, to tell them apart.
pub record Coded {ℓ} (A : Type ℓ) : Type ℓ where
  pub code : A → ℕ

instance abbrev pub rc_osc_freq_coded : Coded RcOscFreq
rc_osc_freq_coded = record {
  code = λ f. elim f [ rc_4m ↦ 4 | rc_8m ↦ 8 | rc_10m ↦ 10 | rc_12m ↦ 12 ];
}

instance abbrev pub mainck_src_coded : Coded MainckSrc
mainck_src_coded = record { code = λ s. elim s [ rc_osc ↦ 0 | x_osc ↦ 1 | x_osc_bypassed ↦ 2 ] }

instance abbrev pub masterck_src_coded : Coded MasterckSrc
masterck_src_coded = record { code = λ s. elim s [ slck ↦ 0 | mainck ↦ 1 | pllack ↦ 2 ] }

instance abbrev pub masterck_presc_coded : Coded MasterckPresc
masterck_presc_coded = record {
  code = λ p. elim p [
    | presc_1 ↦ 1
    | presc_2 ↦ 2
    | presc_3 ↦ 3
    | presc_4 ↦ 4
    | presc_8 ↦ 8
    | presc_16 ↦ 16
    | presc_32 ↦ 32
    | presc_64 ↦ 64
  ];
}

instance abbrev pub masterck_div_coded : Coded MasterckDiv
masterck_div_coded = record { code = λ d. elim d [ div_1 ↦ 1 | div_2 ↦ 2 ] }

-- `#define` of one more macro of a family.
abbrev pub define {ℓ} : {A : Type ℓ} ⦃c : Coded A⦄ → A → (A → Bool) → A → Bool
define ⦃c⦄ x defined y = defined y || (c.code x == c.code y)
