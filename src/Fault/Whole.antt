-- ===== src/Fault/Whole.antt =====
-- The stores of the whole handler.
use taste_samx_rtems_runtime.Fault.Stored.{
  fits, select_stack-cases, walk-Agrees, ldr-Agrees, save_registers-Saves,
}
use taste_samx_rtems_runtime.Fault.Expected.{IsPlaced, captured, stores_of, register_fields}
use taste_samx_rtems_runtime.Fault.Captured.{Agrees, put_r1-Agrees, store-Agrees, frame_pointer}
use taste_samx_rtems_runtime.Fault.Handler.{
  fault_handler, save_system_control_block, select_stack, wdt_cr_addr, wdt_rst_key, save_registers,
  cfsr_address,
}
use taste_samx_rtems_runtime.Fault.{
  Machine, Instr, exec, ldr_post, r2, step, r1, str, r0, lr, put, ldr, r3,
}
use taste_samx_rtems_runtime.Fault.Report.{
  Field, context_fields, offsetof, stack_trace_pointer, cfsr, exception_id, hfsr, mmar, bfar,
  offsetof-le,
}
use taste_samx_rtems_runtime.Common.{List, ℕ, ◌++◌, ◌∷◌, ◌≡◌, [], ◌+◌, bit_and, ◌==◌, refl, arith}

abbrev pub stored_fields : List Field
stored_fields = context_fields ++ (stack_trace_pointer ∷ [])

module _ (base : ℕ) (e : Machine) (p : IsPlaced base e) where
  select_stack-Agrees :
      Agrees base e
        (fits base e p)
        (exec (select_stack base) e)
        ((base + 4, captured e exception_id) ∷ (wdt_cr_addr, wdt_rst_key) ∷ [])
  unfolding select_stack exec step
  select_stack-Agrees = select_stack-cases base e p (bit_and (e.reg lr) 4 == 0) refl

  abbrev walk : ℕ → Field → List Instr
  walk n f = ldr_post r2 r1 n ∷ str r2 r0 (offsetof f) ∷ []

  save_system_control_block-stores :
      (m : Machine) (s : List (ℕ × ℕ))
      → Agrees base e (fits base e p) m s
      → (exec save_system_control_block m).stores
        ≡ stores_of base e (cfsr ∷ hfsr ∷ mmar ∷ bfar ∷ stack_trace_pointer ∷ []) s
  unfolding save_system_control_block exec step captured
  save_system_control_block-stores m s a =
      let m0 : Machine = put r1 cfsr_address m in
      let m1 : Machine = exec (walk 4 cfsr) m0 in
      let m2 : Machine = exec (walk 8 hfsr) m1 in
      let m3 : Machine = exec (walk 4 mmar) m2 in
      let at_cfsr =
        walk-Agrees base e p m0 s cfsr_address 4 cfsr (omega arith) refl
          (put_r1-Agrees base e (fits base e p) m s cfsr_address a) in
      let at_hfsr =
        walk-Agrees base e p m1 (stores_of base e (cfsr ∷ []) s) 0xE000ED2C 8 hfsr (omega arith)
          at_cfsr.1 at_cfsr.0 in
      let at_mmar =
        walk-Agrees base e p m2 (stores_of base e (cfsr ∷ hfsr ∷ []) s) 0xE000ED34 4 mmar
          (omega arith) at_hfsr.1 at_hfsr.0 in
      let at_bfar =
        ldr-Agrees base e p m3 (stores_of base e (cfsr ∷ hfsr ∷ mmar ∷ []) s) 0xE000ED38 bfar
          (omega arith) at_mmar.1 at_mmar.0 in
      let last =
        store-Agrees base e (fits base e p) (exec (ldr r2 r1 0 ∷ str r2 r0 (offsetof bfar) ∷ []) m3)
          (stores_of base e (cfsr ∷ hfsr ∷ mmar ∷ bfar ∷ []) s) stack_trace_pointer
          ((exec (ldr r2 r1 0 ∷ str r2 r0 (offsetof bfar) ∷ []) m3).reg r3) (frame_pointer e)
          (offsetof-le stack_trace_pointer) at_bfar.frame at_bfar in
      last.stored

  -- The report, the frame of the interrupted code and the registers of the system lie apart: then
  -- Fault_Handler resets the watchdog, stores every word of the report before the copy of the stack
  -- once at its place, in the order of the structure, with the register that it stands for, PRIMASK
  -- with the value 1 that the handler itself has set, and stores nothing else.
  pub fault_handler-stores :
      (fault_handler base e).stores
      ≡ stores_of base e stored_fields ((wdt_cr_addr, wdt_rst_key) ∷ [])
  unfolding fault_handler offsetof
  fault_handler-stores =
      save_system_control_block-stores (exec save_registers (exec (select_stack base) e))
        (stores_of base e (exception_id ∷ register_fields) ((wdt_cr_addr, wdt_rst_key) ∷ []))
        ((save_registers-Saves base e p).run (exec (select_stack base) e)
          ((base + 4, captured e exception_id) ∷ (wdt_cr_addr, wdt_rst_key) ∷ [])
          select_stack-Agrees)
