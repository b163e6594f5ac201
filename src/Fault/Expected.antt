-- ===== src/Fault/Expected.antt =====
-- What Fault_Handler is to store.
use taste_samx_rtems_runtime.Fault.Handler.{cfsr_address, wdt_cr_addr}
use taste_samx_rtems_runtime.Fault.Captured.{frame_pointer}
use taste_samx_rtems_runtime.Fault.Report.{
  Field, f_r0, f_r1, exception_id, f_r2, offsetof, f_r3, f_r4, f_r5, f_r6, f_r7, f_r8, f_r9, f_r10,
  f_r11, f_r12, f_msp, f_psp, f_lr, f_pc, f_psr, f_pri_mask, f_fault_mask, f_base_pri, f_control,
  cfsr, hfsr, mmar, bfar, stack_trace_pointer,
}
use taste_samx_rtems_runtime.Fault.{
  Machine, ipsr, r4, r5, r6, r7, r8, r9, r10, r11, msp, psp, faultmask, basepri, control,
}
use taste_samx_rtems_runtime.Common.{List, ℕ, ◌≡◌, [], ◌∷◌, ◌+◌, ◌≤◌, bit_and, ◌⊎◌, ◌<◌}

-- Where the report, the frame and the registers of the system lie: apart from each other.
pub record IsPlaced (base : ℕ) (e : Machine) : Type 0 where
  pub fresh : e.stores ≡ []
  pub report : base + 116 ≤ cfsr_address
  pub frame : frame_pointer e + 32 ≤ cfsr_address
  pub apart : (frame_pointer e + 32 ≤ base) ⊎ (base + 116 ≤ frame_pointer e)
  pub watchdog : (frame_pointer e + 32 ≤ wdt_cr_addr) ⊎ (wdt_cr_addr < frame_pointer e)

-- What the report is to hold: the registers of the code that was interrupted, which the processor has
-- stacked in part, the registers of the system control block, and the number of the exception.
-- PRIMASK is the one of the handler.
unfoldable pub captured : Machine → Field → ℕ
captured e f =
    let word = λ (k : ℕ). e.memory (frame_pointer e + k) in
    elim f [
      | exception_id ↦ bit_and (e.special ipsr) 0x3F
      | f_r0 ↦ word 0
      | f_r1 ↦ word 4
      | f_r2 ↦ word 8
      | f_r3 ↦ word 12
      | f_r4 ↦ e.reg r4
      | f_r5 ↦ e.reg r5
      | f_r6 ↦ e.reg r6
      | f_r7 ↦ e.reg r7
      | f_r8 ↦ e.reg r8
      | f_r9 ↦ e.reg r9
      | f_r10 ↦ e.reg r10
      | f_r11 ↦ e.reg r11
      | f_r12 ↦ word 16
      | f_msp ↦ e.special msp
      | f_psp ↦ e.special psp
      | f_lr ↦ word 20
      | f_pc ↦ word 24
      | f_psr ↦ word 28
      | f_pri_mask ↦ 1
      | f_fault_mask ↦ e.special faultmask
      | f_base_pri ↦ e.special basepri
      | f_control ↦ e.special control
      | cfsr ↦ e.memory 0xE000ED28
      | hfsr ↦ e.memory 0xE000ED2C
      | mmar ↦ e.memory 0xE000ED34
      | bfar ↦ e.memory 0xE000ED38
      | stack_trace_pointer ↦ frame_pointer e
    ]

-- The stores of these fields at their offsets, the last field first, before other stores.
abbrev pub stores_of : ℕ → Machine → List Field → List (ℕ × ℕ) → List (ℕ × ℕ)
stores_of base e [] s = s
stores_of base e (f ∷ fields) s = stores_of base e fields ((base + offsetof f, captured e f) ∷ s)

abbrev pub register_fields : List Field
register_fields =
    f_r0 ∷ f_r1 ∷ f_r2 ∷ f_r3 ∷ f_r4 ∷ f_r5 ∷ f_r6 ∷ f_r7 ∷ f_r8 ∷ f_r9 ∷ f_r10 ∷ f_r11 ∷ f_r12
    ∷ f_msp ∷ f_psp ∷ f_lr ∷ f_pc ∷ f_psr ∷ f_pri_mask ∷ f_fault_mask ∷ f_base_pri ∷ f_control ∷ []
