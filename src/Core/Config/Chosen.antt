-- ===== src/Core/Config/Chosen.antt =====
-- The choices that a configuration consists of.
use taste_samx_rtems_runtime.Core.Clock.{PmcConfig}
use taste_samx_rtems_runtime.Core.Config.{xosc_startup_time, any_defined}
use taste_samx_rtems_runtime.Common.{
  ◌≡◌, some, arith, Bool, Option, List, none, true, ◌∷◌, Bool-cases, if◌then◌else◌, [], inl, inr,
}
use taste_samx_rtems_runtime.Core.Config.Rh71
use taste_samx_rtems_runtime.Core.Config.V71

pub record Rh71Chosen (d : Rh71.Macros) (c : Rh71.Settings) : Type 0 where
  pub mul : Rh71.plla_multiplier d ≡ some c.pmc.plla_mul
  pub div : Rh71.plla_divider d ≡ some c.pmc.plla_div
  pub startup : Rh71.plla_startup_time d ≡ some c.plla_startup_time
  pub vco : Rh71.plla_vco d ≡ some c.plla_vco
  pub xosc : xosc_startup_time d.no_init d.rcosc_xosc_startup_time ≡ some c.rcosc_xosc_startup_time
  pub main_src : Rh71.main_clock_source d ≡ some c.pmc.main_src
  pub freq : Rh71.rcosc_frequency d ≡ some c.pmc.rc_osc_freq
  pub master_src : Rh71.master_clock_source d ≡ some c.pmc.master_src
  pub presc : Rh71.master_clock_prescaler d ≡ some c.pmc.presc
  pub divider : Rh71.master_clock_divider d ≡ some c.pmc.divider

pub choose_rh71-Chosen :
    (d : Rh71.Macros) (c : Rh71.Settings) → Rh71.choose d ≡ some c → Rh71Chosen d c
unfolding Rh71.choose
choose_rh71-Chosen d c h = record {
  mul = ground (arith, h);
  div = ground (arith, h);
  startup = ground (arith, h);
  vco = ground (arith, h);
  xosc = ground (arith, h);
  main_src = ground (arith, h);
  freq = ground (arith, h);
  master_src = ground (arith, h);
  presc = ground (arith, h);
  divider = ground (arith, h);
}

pub record V71Chosen (d : V71.Macros) (c : V71.Settings) : Type 0 where
  pub mul : V71.plla_multiplier d ≡ some c.pmc.plla_mul
  pub div : V71.plla_divider d ≡ some c.pmc.plla_div
  pub startup : V71.plla_startup_time d ≡ some c.plla_startup_time
  pub xosc : xosc_startup_time d.no_init d.rcosc_xosc_startup_time ≡ some c.rcosc_xosc_startup_time
  pub main_src : V71.main_clock_source d ≡ some c.pmc.main_src
  pub freq : V71.rcosc_frequency d ≡ some c.pmc.rc_osc_freq
  pub master_src : V71.master_clock_source d ≡ some c.pmc.master_src
  pub presc : V71.master_clock_prescaler d ≡ some c.pmc.presc
  pub divider : V71.master_clock_divider d ≡ some c.pmc.divider

pub choose_v71-Chosen : (d : V71.Macros) (c : V71.Settings) → V71.choose d ≡ some c → V71Chosen d c
unfolding V71.choose
choose_v71-Chosen d c h = record {
  mul = ground (arith, h);
  div = ground (arith, h);
  startup = ground (arith, h);
  xosc = ground (arith, h);
  main_src = ground (arith, h);
  freq = ground (arith, h);
  master_src = ground (arith, h);
  presc = ground (arith, h);
  divider = ground (arith, h);
}

-- The first macro of a family that is defined.
abbrev pub first_defined {ℓ} : {A : Type ℓ} → (A → Bool) → List A → Option A
first_defined defined [] = none
first_defined defined (x ∷ rest) = if defined x then some x else first_defined defined rest

pub pmc-ext :
    {a b : PmcConfig}
    → a.main_src ≡ b.main_src
    → a.rc_osc_freq ≡ b.rc_osc_freq
    → a.plla_mul ≡ b.plla_mul
    → a.plla_div ≡ b.plla_div
    → a.master_src ≡ b.master_src
    → a.presc ≡ b.presc
    → a.divider ≡ b.divider
    → a ≡ b
pmc-ext p q r s t u v i = record {
  main_src = p i;
  rc_osc_freq = q i;
  plla_mul = r i;
  plla_div = s i;
  master_src = t i;
  presc = u i;
  divider = v i;
}

pub some-inj {ℓ} : {A : Type ℓ} {o : Option A} {a b : A} → o ≡ some a → o ≡ some b → b ≡ a
some-inj p q = cc (p, q)

pub any_defined-first {ℓ} :
    {A : Type ℓ} (defined : A → Bool) (values : List A) (x : A)
    → first_defined defined values ≡ some x
    → any_defined defined values ≡ true
any_defined-first defined [] x h = ground (arith, h)
any_defined-first defined (y ∷ rest) x h = elim (Bool-cases (defined y)) [
  | inl taken ↦ ground (arith, taken)
  | inr skipped ↦ rw (skipped) (any_defined-first defined rest x (ground (arith, h, skipped)))
]
