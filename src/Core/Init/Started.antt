-- ===== src/Core/Init/Started.antt =====
-- The start of both processors in a build that names a frequency.
use taste_samx_rtems_runtime.Core.Config.RequestedV71.{configure_v71-first}
use taste_samx_rtems_runtime.Core.Config.RequestedRh71.{configure_rh71-first}
use taste_samx_rtems_runtime.Core.Config.Chosen.{first_defined}
use taste_samx_rtems_runtime.Core.Clock.Nominal.{nominal_rh71, nominal_v71, nominal_v71-le}
use taste_samx_rtems_runtime.Common.Word.{u32, u64}
use native.Mathlib.Nat.{mul-le-mul, mul_right_comm}
use taste_samx_rtems_runtime.Core.Clock.{
  systick_reload, Target, get_processor_clock_frequency, FrequencyRh71, FrequencyV71, rh71_100mhz,
  rh71_90mhz, rh71_80mhz, rh71_75mhz, rh71_60mhz, rh71_50mhz, samrh71f20, samv71q21, rh71_25mhz,
}
use taste_samx_rtems_runtime.Common.{
  ℕ, List, [], ◌++◌, ◌≡◌, suc, ◌*◌, ◌+◌, ◌∙◌, ap, arith, ◌∷◌, ◌≤◌, subst, zero, sym, ◌/◌, refl,
  some, false, if◌then◌else◌, none,
}
use taste_samx_rtems_runtime.Core.Init.{
  FlexramSlave, init_matrix, init_systick, protect_regions, protect_slaves, Board, flexram2,
  systick_set_reload, flexram0, flexram1, matrix_init, set_slave_region_protection, systick_init,
  set_core_clock_frequency, BoardCall, init_rh71, init_v71, mpu_enable, mpu_init, pmc_init,
  pmc_set_config_rh71, pmc_set_config_v71,
}
use taste_samx_rtems_runtime.Core.Config.Rh71
use taste_samx_rtems_runtime.Core.Config.V71

-- The protections of the first regions of a slave, the newest first.
abbrev pub protected : FlexramSlave → ℕ → List BoardCall
protected slave zero = []
protected slave (suc n) = set_slave_region_protection slave n ∷ protected slave n

protect_regions-protected :
    (slave : FlexramSlave) (n j : ℕ) (h : List BoardCall)
    → protect_regions slave n j (protected slave j ++ h) ≡ protected slave (n + j) ++ h
unfolding protect_regions
protect_regions-protected slave zero j h = ap (λ k. protected slave k ++ h) (omega arith)
protect_regions-protected slave (suc n) j h =
    let next : j + 1 ≡ suc j = omega arith in
    let shift : n + suc j ≡ suc n + j = omega arith in
    subst
      (λ k.
        protect_regions slave n k (set_slave_region_protection slave j ∷ (protected slave j ++ h))
        ≡ protected slave (suc n + j) ++ h)
      (sym next)
      (protect_regions-protected slave n (suc j) h ∙ ap (λ k. protected slave k ++ h) shift)

protect_regions_all :
    (slave : FlexramSlave) (n : ℕ) (h : List BoardCall)
    → protect_regions slave n 0 h ≡ protected slave n ++ h
protect_regions_all slave n h =
    protect_regions-protected slave n 0 h ∙ ap (λ k. protected slave k ++ h) (omega arith)

-- The calls that SamRH71Core_InitMatrix makes, the newest first: every region of every slave once.
abbrev pub matrix_calls : ℕ → List BoardCall → List BoardCall
matrix_calls n h =
    protected flexram2 n ++ (protected flexram1 n ++ (protected flexram0 n ++ (matrix_init ∷ h)))

init_matrix-calls :
    (B : Board) (h : List BoardCall) → init_matrix B h ≡ matrix_calls B.protected_region_count h
unfolding init_matrix protect_slaves
init_matrix-calls B h =
    let n : ℕ = B.protected_region_count in
    rw
      (
        protect_regions_all flexram0 n (matrix_init ∷ h),
        protect_regions_all flexram1 n (protected flexram0 n ++ (matrix_init ∷ h)),
        protect_regions_all flexram2 n
            (protected flexram1 n ++ (protected flexram0 n ++ (matrix_init ∷ h))),
      )
      refl

-- What the set-up of the system timer adds to the calls: the clock, and a reload value of so many
-- cycles.
abbrev pub timer_calls : ℕ → ℕ → List BoardCall → List BoardCall
timer_calls megahertz microseconds h =
    systick_set_reload (megahertz * microseconds)
    ∷ systick_init
    ∷ set_core_clock_frequency (megahertz * 1000000)
    ∷ h

init_systick-calls :
    (B : Board) (t : Target) (h : List BoardCall) (megahertz : ℕ)
    → get_processor_clock_frequency t (B.config h) ≡ megahertz * 1000000
    → megahertz ≤ 150
    → B.microseconds_per_tick ≤ 111000
    → init_systick B t h ≡ timer_calls megahertz B.microseconds_per_tick h
unfolding init_systick systick_reload
init_systick-calls B t h m clock slow short =
    let us : ℕ = B.microseconds_per_tick in
    let bound : m * us ≤ 150 * 111000 =
      mul-le-mul {n₁ = m} {m₁ = us} {n₂ = 150} {m₂ = 111000} slow short in
    let product : m * 1000000 * us ≡ m * us * 1000000 = mul_right_comm m 1000000 us in
    let cycles : u32 (u64 (m * 1000000 * us) / 1000000) ≡ m * us = omega (arith, product, bound) in
    rw (clock, cycles) refl

nominal_rh71-le : (f : FrequencyRh71) → nominal_rh71 f ≤ 150
nominal_rh71-le rh71_100mhz = omega arith
nominal_rh71-le rh71_90mhz = omega arith
nominal_rh71-le rh71_80mhz = omega arith
nominal_rh71-le rh71_75mhz = omega arith
nominal_rh71-le rh71_60mhz = omega arith
nominal_rh71-le rh71_50mhz = omega arith
nominal_rh71-le rh71_25mhz = omega arith

-- The first calls of the set-up, the newest first.
abbrev pub first_calls : List BoardCall
first_calls = mpu_enable ∷ mpu_init ∷ pmc_init ∷ []

-- The start of a SAMRH71 in a build that compiles and names a frequency f, where the board library
-- reads back the configuration that it accepted and a tick has at most 111 milliseconds: if the library
-- refuses the configuration, an assertion fails. Otherwise the timer gets the clock f and as many cycles
-- as a tick has, and then every region of the three memories is opened exactly once.
pub init_rh71-calls :
    (B : Board) (d : Rh71.Macros) (f : FrequencyRh71) (c : Rh71.Settings)
    → first_defined d.cpu_frequency Rh71.frequencies ≡ some f
    → Rh71.configure d ≡ some c
    → ((h : List BoardCall) → B.config (pmc_set_config_rh71 c 1000000 ∷ h) ≡ c.pmc)
    → B.microseconds_per_tick ≤ 111000
    → init_rh71 B false c [] ≡ (
        if B.accepts_rh71 c first_calls
        then some (
            matrix_calls B.protected_region_count (
              timer_calls
                (nominal_rh71 f)
                B.microseconds_per_tick
                (pmc_set_config_rh71 c 1000000 ∷ first_calls)))
        else none)
unfolding init_rh71
init_rh71-calls B d f c first compiles reads short =
    let h : List BoardCall = pmc_set_config_rh71 c 1000000 ∷ first_calls in
    let clock : get_processor_clock_frequency samrh71f20 (B.config h) ≡ nominal_rh71 f * 1000000 =
      ap (get_processor_clock_frequency samrh71f20) (reads first_calls)
      ∙ (configure_rh71-first d f c first compiles).1 in
    let timer : init_systick B samrh71f20 h
        ≡ timer_calls (nominal_rh71 f) B.microseconds_per_tick h =
      init_systick-calls B samrh71f20 h (nominal_rh71 f) clock (nominal_rh71-le f) short in
    let all : init_matrix B (init_systick B samrh71f20 h)
        ≡ matrix_calls B.protected_region_count
            (timer_calls (nominal_rh71 f) B.microseconds_per_tick h) =
      init_matrix-calls B (init_systick B samrh71f20 h)
      ∙ ap (matrix_calls B.protected_region_count) timer in
    ground (arith, all)

-- The start of a SAMV71 in a build that compiles and names a frequency f, where the board library
-- reads back the configuration that it accepted and a tick has at most 111 milliseconds: if the library
-- refuses the configuration, an assertion fails, and otherwise the timer gets the clock f and as many
-- cycles as a tick has.
pub init_v71-calls :
    (B : Board) (d : V71.Macros) (f : FrequencyV71) (c : V71.Settings)
    → first_defined d.cpu_frequency V71.frequencies ≡ some f
    → V71.configure d ≡ some c
    → ((h : List BoardCall) → B.config (pmc_set_config_v71 c 1000000 ∷ h) ≡ c.pmc)
    → B.microseconds_per_tick ≤ 111000
    → init_v71 B false c [] ≡ (
        if B.accepts_v71 c first_calls
        then some (
            timer_calls
              (nominal_v71 f)
              B.microseconds_per_tick
              (pmc_set_config_v71 c 1000000 ∷ first_calls))
        else none)
unfolding init_v71
init_v71-calls B d f c first compiles reads short =
    let h : List BoardCall = pmc_set_config_v71 c 1000000 ∷ first_calls in
    let clock : get_processor_clock_frequency samv71q21 (B.config h) ≡ nominal_v71 f * 1000000 =
      ap (get_processor_clock_frequency samv71q21) (reads first_calls)
      ∙ (configure_v71-first d f c first compiles).1 in
    let timer : init_systick B samv71q21 h ≡ timer_calls (nominal_v71 f) B.microseconds_per_tick h =
      init_systick-calls B samv71q21 h (nominal_v71 f) clock (nominal_v71-le f) short in
    ground (arith, timer)
