-- ===== src/Fault/Handler.antt =====
-- The instructions of Fault_Handler of src/FaultHandler/FaultHandler.c. At its end the code branches
-- to Fault_HandlerTail.
use taste_samx_rtems_runtime.Fault.Report.{
  Field, f_r0, f_r1, offsetof, f_r2, cfsr, f_r3, hfsr, f_r4, mmar, bfar, f_r5, stack_trace_pointer,
  exception_id, f_r6, f_r7, f_r8, f_r9, f_r10, f_r11, f_r12, f_msp, f_psp, f_lr, f_pc, f_psr,
  f_pri_mask, f_fault_mask, f_base_pri, f_control,
}
use taste_samx_rtems_runtime.Fault.{
  Reg, Special, Instr, Machine, cpsid_i, exec, ldr, ldr_literal, mrs, str, r0, r1, ldr_post, r3,
  tst, lr, r2, mrs_eq, msp, r4, mrs_ne, psp, r5, ipsr, and_imm, r6, r7, r8, r9, r10, r11, primask,
  faultmask, basepri, control,
}
use taste_samx_rtems_runtime.Common.{List, ℕ, ◌++◌, ◌∷◌, []}

-- `WdtRstKey`, `WdtCrAddr` and `CfsrAddress`.
abbrev pub wdt_rst_key : ℕ
wdt_rst_key = 0xA5000001

abbrev pub wdt_cr_addr : ℕ
wdt_cr_addr = 0x40100250

abbrev pub cfsr_address : ℕ
cfsr_address = 0xE000ED28

-- "ldr r1, [r3, #k]; str r1, [r0, #f]"
abbrev pub stacked : ℕ → Field → List Instr
stacked k f = ldr r1 r3 k ∷ str r1 r0 (offsetof f) ∷ []

-- "str r, [r0, #f]"
abbrev pub live : Reg → Field → List Instr
live r f = str r r0 (offsetof f) ∷ []

-- "mrs r1, s; str r1, [r0, #f]"
abbrev pub moved : Special → Field → List Instr
moved s f = mrs r1 s ∷ str r1 r0 (offsetof f) ∷ []

-- The stack that holds the frame goes to r3, the watchdog is reset, and the number of the exception is
-- stored.
unfoldable pub select_stack : ℕ → List Instr
select_stack death_report_begin =
    cpsid_i
    ∷ tst lr 4
    ∷ mrs_eq r3 msp
    ∷ mrs_ne r3 psp
    ∷ ldr_literal r0 wdt_rst_key
    ∷ ldr_literal r1 wdt_cr_addr
    ∷ str r0 r1 0
    ∷ ldr_literal r0 death_report_begin
    ∷ mrs r1 ipsr
    ∷ and_imm r1 r1 0x3F
    ∷ str r1 r0 (offsetof exception_id)
    ∷ []

-- The registers of the code that was interrupted: r0 to r3, r12, lr, pc and psr stand in the frame.
unfoldable pub save_registers : List Instr
save_registers =
    stacked 0 f_r0
    ++ (stacked 4 f_r1
        ++ (stacked 8 f_r2
            ++ (stacked 12 f_r3
                ++ (live r4 f_r4
                    ++ (live r5 f_r5
                        ++ (live r6 f_r6
                            ++ (live r7 f_r7
                                ++ (live r8 f_r8
                                    ++ (live r9 f_r9
                                        ++ (live r10 f_r10
                                            ++ (live r11 f_r11
                                                ++ (stacked 16 f_r12
                                                    ++ (moved msp f_msp
                                                        ++ (moved psp f_psp
                                                            ++ (stacked 20 f_lr
                                                            ++ (stacked 24 f_pc
                                                            ++ (stacked 28 f_psr
                                                            ++ (moved primask f_pri_mask
                                                            ++ (moved faultmask f_fault_mask
                                                            ++ (moved basepri f_base_pri
                                                            ++ moved control
                                                            f_control))))))))))))))))))))

-- The registers of the system control block, and the pointer to the frame.
unfoldable pub save_system_control_block : List Instr
save_system_control_block =
    ldr_literal r1 cfsr_address
    ∷ ldr_post r2 r1 4
    ∷ str r2 r0 (offsetof cfsr)
    ∷ ldr_post r2 r1 8
    ∷ str r2 r0 (offsetof hfsr)
    ∷ ldr_post r2 r1 4
    ∷ str r2 r0 (offsetof mmar)
    ∷ ldr r2 r1 0
    ∷ str r2 r0 (offsetof bfar)
    ∷ str r3 r0 (offsetof stack_trace_pointer)
    ∷ []

-- `Fault_Handler`, where the report stands at DEATH_REPORT_BEGIN.
unfoldable pub fault_handler : ℕ → Machine → Machine
fault_handler death_report_begin m =
    exec save_system_control_block (exec save_registers (exec (select_stack death_report_begin) m))
