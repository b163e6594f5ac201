-- ===== src/Core/Config/Choice.antt =====
-- The choice that a family of macros makes, and the range of a macro with a value.
use taste_samx_rtems_runtime.Core.Config.{exclusive, family, any_defined, Coded, define}
use taste_samx_rtems_runtime.Common.{
  Bool, List, Option, false, ◌∷◌, ◌≡◌, Bool-cases, arith, if◌then◌else◌, some, true, [], inl, none,
  inr, refl, ◌∙◌,
}

module _ {ℓ} {A : Type ℓ} where
  -- The values whose macros are defined, in the order of the family.
  abbrev pub selected : (A → Bool) → List A → List A
  selected defined [] = []
  selected defined (x ∷ rest) =
      if defined x then x ∷ selected defined rest else selected defined rest

  -- The choice when these are the macros that are defined.
  abbrev pub sole : Bool → List A → A → Option A
  sole no_init [] default_value = some default_value
  sole no_init (x ∷ []) default_value = if no_init then none else some x
  sole no_init (x ∷ y ∷ rest) default_value = none

  abbrev is_nonempty : List A → Bool
  is_nonempty [] = false
  is_nonempty (x ∷ rest) = true

  any_defined-selected :
      (defined : A → Bool) (values : List A)
      → any_defined defined values ≡ is_nonempty (selected defined values)
  any_defined-selected defined [] = refl
  any_defined-selected defined (x ∷ rest) = ground (arith, any_defined-selected defined rest)

  exclusive-sole :
      (defined : A → Bool) (values : List A) (default_value : A)
      → exclusive defined values default_value ≡ sole false (selected defined values) default_value
  unfolding exclusive
  exclusive-sole defined [] default_value = refl
  exclusive-sole defined (x ∷ rest) default_value = elim (Bool-cases (defined x)) [
    | inl taken ↦ ground (arith, taken, any_defined-selected defined rest)
    | inr skipped ↦ ground (arith, skipped, exclusive-sole defined rest default_value)
  ]

  -- A family of macros stands for the only one of its macros that is defined, or for its default if
  -- none is; two that are defined are an error, and so is one together with RT_RTOS_NO_INIT.
  pub family-sole :
      (no_init : Bool) (defined : A → Bool) (values : List A) (default_value : A)
      → family no_init defined values default_value
        ≡ sole no_init (selected defined values) default_value
  unfolding family
  family-sole no_init defined values default_value =
      ground
        (arith, any_defined-selected defined values, exclusive-sole defined values default_value)

module _ {ℓ} {A : Type ℓ} ⦃c : Coded A⦄ where
  selected-define :
      (x : A) (defined : A → Bool) (values : List A)
      → any_defined defined values ≡ false
      → selected (define x defined) values ≡ selected (define x (λ _. false)) values
  selected-define x defined [] h = refl
  selected-define x defined (y ∷ rest) h =
      ground (arith, h, selected-define x defined rest (ground (arith, h)))

  -- After the `#define` of one macro of a family in which none was defined, it is the choice.
  pub family-define :
      (no_init : Bool) (x : A) (defined : A → Bool) (values : List A) (default_value : A)
      → no_init ≡ false
      → any_defined defined values ≡ false
      → selected (define x (λ _. false)) values ≡ x ∷ []
      → family no_init (define x defined) values default_value ≡ some x
  family-define no_init x defined values default_value included h once =
      family-sole no_init (define x defined) values default_value
      ∙ rw (selected-define x defined values h, once, included) refl
