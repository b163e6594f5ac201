-- ===== src/Fault/Tests.antt =====
-- A fault on concrete values: a division by zero in a task, with the frame on the process stack.
use taste_samx_rtems_runtime.Fault.Expected.{IsPlaced, captured, stores_of}
use taste_samx_rtems_runtime.Fault.Tail.Reported.{handle_fault-Reported}
use taste_samx_rtems_runtime.Report.Writer.Written.{Written}
use taste_samx_rtems_runtime.Fault.Captured.{frame_pointer}
use taste_samx_rtems_runtime.Fault.Whole.{stored_fields, fault_handler-stores}
use taste_samx_rtems_runtime.Fault.Tail.{
  handle_fault, clean_dcache, invalidate_dcache, reset_system, flatten, report_in_memory,
}
use taste_samx_rtems_runtime.Fault.Report.{f_pc, offsetof, context_fields}
use taste_samx_rtems_runtime.Common.{
  [], arith, if◌then◌else◌, ◌≡◌, inr, refl, replicate, ◌%◌, inl, ◌==◌, ◌+◌, ◌∷◌, false, ◌^◌, map,
}
use taste_samx_rtems_runtime.Fault.Handler.{
  fault_handler, select_stack, save_registers, wdt_cr_addr, save_system_control_block, wdt_rst_key,
}
use taste_samx_rtems_runtime.Report.Writer.{DeathReport, word_bytes}
use taste_samx_rtems_runtime.Fault.{
  Machine, exec, number, step, msp, load, psp, ipsr, primask, faultmask, basepri, control,
}

abbrev faulted : Machine
faulted = record {
  reg = λ r. if number r == 14 then 0xFFFFFFFD else 0x100 + number r;
  special = λ s. elim s [
    | msp ↦ 0x20450000
    | psp ↦ 0x20440000
    | ipsr ↦ 6
    | primask ↦ 0
    | faultmask ↦ 0
    | basepri ↦ 0
    | control ↦ 2
  ];
  z = false;
  memory = λ a. if a == 0xE000ED28 then 0x02000000 else a % 2 ^ 16;
  stores = [];
}

abbrev placed : IsPlaced 0x20400000 faulted
placed = record {
  fresh = refl;
  report = omega arith;
  frame = omega arith;
  apart = inr (omega arith);
  watchdog = inl (omega arith);
}

abbrev blank : DeathReport
blank = record {
  checksum = 0;
  was_seen = 1;
  padding = 0;
  context = [];
  stack_trace_pointer = 0;
  stack_trace_length = 0;
  stack_trace = replicate 512 0;
  reserved = [];
}

-- pc and the fault status register in the report
captured_pc : captured faulted f_pc ≡ 0x18
unfolding captured
captured_pc = refl

stored_pc : load (fault_handler 0x20400000 faulted).stores faulted.memory (0x20400000 + 72) ≡ 0x18
unfolding fault_handler exec step select_stack save_registers save_system_control_block offsetof
stored_pc = refl

fault_handler-stores_example :
    (fault_handler 0x20400000 faulted).stores
    ≡ stores_of 0x20400000 faulted stored_fields ((wdt_cr_addr, wdt_rst_key) ∷ [])
fault_handler-stores_example = fault_handler-stores 0x20400000 faulted placed

handle_fault-Reported_example :
    (r : DeathReport) × (handle_fault 0x20400000 (λ a. a % 256) 0x20440100 blank faulted
      ≡ (r, clean_dcache ∷ invalidate_dcache ∷ reset_system ∷ []))
    × (r.context ≡ flatten (map (λ f. word_bytes (captured faulted f)) context_fields))
    × (r.stack_trace_pointer ≡ frame_pointer faulted)
    × Written
        (λ a. a % 256)
        0x20440100
        (report_in_memory 0x20400000 (fault_handler 0x20400000 faulted) blank)
        r
handle_fault-Reported_example =
    handle_fault-Reported 0x20400000 (λ a. a % 256) 0x20440100 blank faulted placed refl
