-- ===== src/Fault.antt =====
-- src/FaultHandler: the processor that executes Fault_Handler of FaultHandler.c, as far as the
-- instructions there use it.
pub mod Report
pub mod Handler
pub mod Captured
pub mod Expected
pub mod Stored
pub mod Whole
pub mod Tail
pub mod Vector
mod Tests
use taste_samx_rtems_runtime.Common.Word.{u32}
use taste_samx_rtems_runtime.Common.{List, bit_and, ℕ, Bool, if◌then◌else◌, ◌==◌, ◌∷◌, [], ◌+◌}

pub data Reg : Type 0 where
  r0 r1 r2 r3 r4 r5 r6 r7 r8 r9 r10 r11 r12 lr : Reg

pub data Special : Type 0 where
  msp psp ipsr primask faultmask basepri control : Special

abbrev pub number : Reg → ℕ
number r = elim r [
  | r0 ↦ 0
  | r1 ↦ 1
  | r2 ↦ 2
  | r3 ↦ 3
  | r4 ↦ 4
  | r5 ↦ 5
  | r6 ↦ 6
  | r7 ↦ 7
  | r8 ↦ 8
  | r9 ↦ 9
  | r10 ↦ 10
  | r11 ↦ 11
  | r12 ↦ 12
  | lr ↦ 14
]

-- The processor: its registers, the flag Z, the words in memory when the fault occurred, and the words
-- that were stored since, the newest first, as an address and a value.
pub record Machine : Type 0 where
  pub reg : Reg → ℕ
  pub special : Special → ℕ
  pub z : Bool
  pub memory : ℕ → ℕ
  pub stores : List (ℕ × ℕ)

abbrev pub put : Reg → ℕ → Machine → Machine
put r v m = record m { reg = λ x. if number r == number x then v else m.reg x }

-- A word that was stored, or else the word in memory.
abbrev pub load : List (ℕ × ℕ) → (ℕ → ℕ) → ℕ → ℕ
load [] memory a = memory a
load ((b, v) ∷ rest) memory a = if b == a then v else load rest memory a

-- The instructions. A condition (`eq`, `ne`) is that of the block `ite eq`.
pub data Instr : Type 0 where
  cpsid_i : Instr
  tst : Reg → ℕ → Instr
  mrs mrs_eq mrs_ne : Reg → Special → Instr
  -- a word that stands in the code
  ldr_literal : Reg → ℕ → Instr
  -- ldr r, [base, #offset] and ldr r, [base], #increment and str r, [base, #offset]
  ldr ldr_post str : Reg → Reg → ℕ → Instr
  and_imm : Reg → Reg → ℕ → Instr

unfoldable pub step : Instr → Machine → Machine
step cpsid_i m = record m { special = λ s. elim s [ primask ↦ 1 | other ↦ m.special other ] }
step (tst r n) m = record m { z = bit_and (m.reg r) n == 0 }
step (mrs r s) m = put r (m.special s) m
step (mrs_eq r s) m = if m.z then put r (m.special s) m else m
step (mrs_ne r s) m = if m.z then m else put r (m.special s) m
step (ldr_literal r n) m = put r n m
step (ldr r base offset) m = put r (load m.stores m.memory (u32 (m.reg base + offset))) m
step (ldr_post r base increment) m =
    put base (u32 (m.reg base + increment)) (put r (load m.stores m.memory (m.reg base)) m)
step (str r base offset) m = record m { stores = (u32 (m.reg base + offset), m.reg r) ∷ m.stores }
step (and_imm r a n) m = put r (bit_and (m.reg a) n) m

unfoldable pub exec : List Instr → Machine → Machine
exec [] m = m
exec (i ∷ rest) m = exec rest (step i m)
