-- ===== src/Fault/Tail.antt =====
-- Fault_HandlerTail of src/FaultHandler/FaultHandler.c, and the whole way from a fault to the reset.
pub mod Reported
use taste_samx_rtems_runtime.Fault.Handler.{fault_handler}
use taste_samx_rtems_runtime.Fault.Report.{Field, context_fields, offsetof, stack_trace_pointer}
use taste_samx_rtems_runtime.Report.Writer.{DeathReport, generate_death_report, word_bytes}
use taste_samx_rtems_runtime.Fault.{Machine, load}
use taste_samx_rtems_runtime.Common.{List, ℕ, ◌∷◌, map, ◌++◌, [], ◌+◌}

-- What Fault_HandlerTail does after the report, in this order; then it waits in a loop for the reset.
pub data Action : Type 0 where
  clean_dcache invalidate_dcache reset_system : Action

abbrev pub flatten : List (List ℕ) → List ℕ
flatten [] = []
flatten (l ∷ rest) = l ++ flatten rest

-- A word of the report in memory.
abbrev pub word_at : ℕ → Machine → Field → ℕ
word_at base m f = load m.stores m.memory (base + offsetof f)

-- The report in memory when the code of Fault_Handler has run: its words, and the rest of the old one.
unfoldable pub report_in_memory : ℕ → Machine → DeathReport → DeathReport
report_in_memory base m old = record old {
  context = flatten (map (λ f. word_bytes (word_at base m f)) context_fields);
  stack_trace_pointer = word_at base m stack_trace_pointer;
}

-- `Fault_HandlerTail`. `bytes` reads a byte of the stack.
unfoldable pub fault_handler_tail : (ℕ → ℕ) → ℕ → DeathReport → DeathReport × List Action
fault_handler_tail bytes stack_end r = (
  (generate_death_report bytes stack_end r).1,
  clean_dcache ∷ invalidate_dcache ∷ reset_system ∷ [],
)

-- Fault_Handler and its tail, entered in the state e.
unfoldable pub handle_fault : ℕ → (ℕ → ℕ) → ℕ → DeathReport → Machine → DeathReport × List Action
handle_fault base bytes stack_end old e =
    fault_handler_tail bytes stack_end (report_in_memory base (fault_handler base e) old)
