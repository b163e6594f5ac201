-- ===== src/Fault/Vector.antt =====
-- The table of src/FaultHandler/CustomExceptionVector.c and FaultHandler_Init of FaultHandler.c.
use taste_samx_rtems_runtime.Common.{List, ℕ, Bool, replicate, ◌++◌, ◌∷◌, true, bit_or}

pub data Device : Type 0 where
  samv71q21 samrh71f20 samrh707f18 : Device

-- The handlers that the table names: `_start`, `_ARMV7M_Exception_default`, `Fault_Handler`,
-- `_ARMV7M_Supervisor_call`, `_ARMV7M_Pendable_service_call`, `_ARMV7M_Clock_handler` and
-- `_ARMV7M_NVIC_Interrupt_dispatch`.
pub data Entry : Type 0 where
  start exception_default fault_handler_entry supervisor_call pendable_service_call : Entry
  clock_handler nvic_interrupt_dispatch : Entry

-- So many lines with the same handler.
abbrev pub dispatch : ℕ → List Entry
dispatch n = replicate n nvic_interrupt_dispatch

-- The interrupts 13 and later of one device.
unfoldable pub irq_handlers_samv71q21 : List Entry
irq_handlers_samv71q21 = dispatch 61

unfoldable pub irq_handlers_samrh71f20 : List Entry
irq_handlers_samrh71f20 = dispatch 78

unfoldable pub irq_handlers_samrh707f18 : List Entry
irq_handlers_samrh707f18 = dispatch 67

-- `.irqHandlers`
unfoldable pub irq_handlers : Device → List Entry
irq_handlers d =
    dispatch 6
    ++ (elim d [ samv71q21 ↦ dispatch 4 | samrh71f20 ↦ dispatch 4 | samrh707f18 ↦ dispatch 4 ]
        ++ (dispatch 3 ++ elim d [
          | samv71q21 ↦ irq_handlers_samv71q21
          | samrh71f20 ↦ irq_handlers_samrh71f20
          | samrh707f18 ↦ irq_handlers_samrh707f18
        ]))

-- `exception_table` without its first word, the initial stack pointer: the entry of exception n is
-- entry n - 1.
unfoldable pub exception_table : Device → List Entry
exception_table d =
    start
    ∷ exception_default
    ∷ fault_handler_entry
    ∷ fault_handler_entry
    ∷ fault_handler_entry
    ∷ fault_handler_entry
    ∷ exception_default
    ∷ exception_default
    ∷ exception_default
    ∷ exception_default
    ∷ supervisor_call
    ∷ exception_default
    ∷ exception_default
    ∷ pendable_service_call
    ∷ clock_handler
    ∷ irq_handlers d

-- The registers of the system control block that the set-up changes.
pub record Scb : Type 0 where
  pub shcsr : ℕ
  pub ccr : ℕ
  pub vector_table : List Entry

-- `FaultHandler_Init`. The masks are those of the board library.
unfoldable pub init : ℕ → ℕ → Device → Scb → Bool × Scb
init usgfaultena_mask div_0_trp_mask d s = (
  true,
  record {
    shcsr = bit_or s.shcsr usgfaultena_mask;
    ccr = bit_or s.ccr div_0_trp_mask;
    vector_table = exception_table d;
  },
)
