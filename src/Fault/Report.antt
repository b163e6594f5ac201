-- ===== src/Fault/Report.antt =====
-- The words of the report that Fault_Handler stores: src/FaultHandler/DeathReport.h.
use taste_samx_rtems_runtime.Common.{
  List, ℕ, ◌∷◌, [], ◌≤◌, arith, map, suc, ◌++◌, ◌+◌, zero, ◌≡◌, refl,
}

-- The words in the order of `DeathReportWriter_DeathReport`, up to the pointer to the stack.
pub data Field : Type 0 where
  exception_id : Field
  f_r0 f_r1 f_r2 f_r3 f_r4 f_r5 f_r6 f_r7 f_r8 f_r9 f_r10 f_r11 f_r12 : Field
  f_msp f_psp f_lr f_pc f_psr f_pri_mask f_fault_mask f_base_pri f_control : Field
  cfsr hfsr mmar bfar : Field
  stack_trace_pointer : Field

-- The words behind the checksum, the flag and the padding.
abbrev pub context_fields : List Field
context_fields =
    exception_id ∷ f_r0 ∷ f_r1 ∷ f_r2 ∷ f_r3 ∷ f_r4 ∷ f_r5 ∷ f_r6 ∷ f_r7 ∷ f_r8 ∷ f_r9 ∷ f_r10
    ∷ f_r11 ∷ f_r12 ∷ f_msp ∷ f_psp ∷ f_lr ∷ f_pc ∷ f_psr ∷ f_pri_mask ∷ f_fault_mask ∷ f_base_pri
    ∷ f_control ∷ cfsr ∷ hfsr ∷ mmar ∷ bfar ∷ []

-- `offsetof`, in a packed structure that begins with 4 bytes of checksum, flag and padding.
unfoldable pub offsetof : Field → ℕ
offsetof f = elim f [
  | exception_id ↦ 4
  | f_r0 ↦ 8
  | f_r1 ↦ 12
  | f_r2 ↦ 16
  | f_r3 ↦ 20
  | f_r4 ↦ 24
  | f_r5 ↦ 28
  | f_r6 ↦ 32
  | f_r7 ↦ 36
  | f_r8 ↦ 40
  | f_r9 ↦ 44
  | f_r10 ↦ 48
  | f_r11 ↦ 52
  | f_r12 ↦ 56
  | f_msp ↦ 60
  | f_psp ↦ 64
  | f_lr ↦ 68
  | f_pc ↦ 72
  | f_psr ↦ 76
  | f_pri_mask ↦ 80
  | f_fault_mask ↦ 84
  | f_base_pri ↦ 88
  | f_control ↦ 92
  | cfsr ↦ 96
  | hfsr ↦ 100
  | mmar ↦ 104
  | bfar ↦ 108
  | stack_trace_pointer ↦ 112
]

pub offsetof-le : (f : Field) → offsetof f ≤ 112
unfolding offsetof
offsetof-le exception_id = omega arith
offsetof-le f_r0 = omega arith
offsetof-le f_r1 = omega arith
offsetof-le f_r2 = omega arith
offsetof-le f_r3 = omega arith
offsetof-le f_r4 = omega arith
offsetof-le f_r5 = omega arith
offsetof-le f_r6 = omega arith
offsetof-le f_r7 = omega arith
offsetof-le f_r8 = omega arith
offsetof-le f_r9 = omega arith
offsetof-le f_r10 = omega arith
offsetof-le f_r11 = omega arith
offsetof-le f_r12 = omega arith
offsetof-le f_msp = omega arith
offsetof-le f_psp = omega arith
offsetof-le f_lr = omega arith
offsetof-le f_pc = omega arith
offsetof-le f_psr = omega arith
offsetof-le f_pri_mask = omega arith
offsetof-le f_fault_mask = omega arith
offsetof-le f_base_pri = omega arith
offsetof-le f_control = omega arith
offsetof-le cfsr = omega arith
offsetof-le hfsr = omega arith
offsetof-le mmar = omega arith
offsetof-le bfar = omega arith
offsetof-le stack_trace_pointer = omega arith

-- So many words from an offset on.
abbrev upward : ℕ → ℕ → List ℕ
upward o zero = []
upward o (suc n) = o ∷ upward (o + 4) n

-- The words follow each other without a gap, so that the words in the order of the structure are its
-- bytes.
offsetof-layout : map offsetof (context_fields ++ (stack_trace_pointer ∷ [])) ≡ upward 4 28
unfolding offsetof
offsetof-layout = refl
