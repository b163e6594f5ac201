-- ===== src/Fault/Tail/Reported.antt =====
-- The report of a fault.
use taste_samx_rtems_runtime.Fault.Expected.{IsPlaced, captured, stores_of}
use mathlib.Core.Path.{fun_ext}
use taste_samx_rtems_runtime.Report.Writer.Written.{Written, generate_death_report-Written}
use taste_samx_rtems_runtime.Fault.Captured.{frame_pointer}
use taste_samx_rtems_runtime.Report.Writer.{DeathReport, word_bytes}
use taste_samx_rtems_runtime.Fault.Whole.{stored_fields, fault_handler-stores}
use taste_samx_rtems_runtime.Fault.Tail.{
  handle_fault, fault_handler_tail, report_in_memory, word_at, clean_dcache, invalidate_dcache,
  reset_system, flatten,
}
use taste_samx_rtems_runtime.Fault.Handler.{fault_handler, wdt_cr_addr, wdt_rst_key}
use taste_samx_rtems_runtime.Fault.Report.{
  offsetof, Field, exception_id, f_r0, f_r1, f_r2, f_r3, f_r4, f_r5, f_r6, context_fields, f_r7,
  f_r8, f_r9, f_r10, f_r11, f_r12, f_msp, f_psp, f_lr, f_pc, f_psr, f_pri_mask, f_fault_mask,
  f_base_pri, f_control, cfsr, hfsr, mmar, bfar, stack_trace_pointer,
}
use taste_samx_rtems_runtime.Fault.{Machine, load}
use taste_samx_rtems_runtime.Common.{
  List, ℕ, Option, ◌≡◌, none, some, ◌∷◌, arith, if◌then◌else◌, length, ◌+◌, ◌==◌, [], ◌∙◌, ap, refl,
  map, Bool,
}

-- The last field with this offset.
abbrev last_with : List Field → ℕ → Option Field
last_with [] o = none
last_with (f ∷ fields) o = elim (last_with fields o) [
  | some g ↦ some g
  | none ↦ if offsetof f == o then some f else none
]

abbrev word_or : Machine → Option Field → ℕ → ℕ
word_or e none n = n
word_or e (some f) n = captured e f

load-stores_of :
    (base : ℕ) (e : Machine) (fields : List Field) (s : List (ℕ × ℕ)) (memory : ℕ → ℕ) (o : ℕ)
    → load (stores_of base e fields s) memory (base + o)
      ≡ word_or e (last_with fields o) (load s memory (base + o))
load-stores_of base e [] s memory o = refl
load-stores_of base e (f ∷ fields) s memory o =
    load-stores_of base e fields ((base + offsetof f, captured e f) ∷ s) memory o
    ∙ later (last_with fields o)
  where
    later :
        (g : Option Field)
        → word_or e g (load ((base + offsetof f, captured e f) ∷ s) memory (base + o))
          ≡ word_or e
              (elim g [ some g ↦ some g | none ↦ if offsetof f == o then some f else none ])
              (load s memory (base + o))
    later (some g) = refl
    later none = ground arith

last_with-offsetof : (f : Field) → last_with stored_fields (offsetof f) ≡ some f
unfolding offsetof
last_with-offsetof exception_id = refl
last_with-offsetof f_r0 = refl
last_with-offsetof f_r1 = refl
last_with-offsetof f_r2 = refl
last_with-offsetof f_r3 = refl
last_with-offsetof f_r4 = refl
last_with-offsetof f_r5 = refl
last_with-offsetof f_r6 = refl
last_with-offsetof f_r7 = refl
last_with-offsetof f_r8 = refl
last_with-offsetof f_r9 = refl
last_with-offsetof f_r10 = refl
last_with-offsetof f_r11 = refl
last_with-offsetof f_r12 = refl
last_with-offsetof f_msp = refl
last_with-offsetof f_psp = refl
last_with-offsetof f_lr = refl
last_with-offsetof f_pc = refl
last_with-offsetof f_psr = refl
last_with-offsetof f_pri_mask = refl
last_with-offsetof f_fault_mask = refl
last_with-offsetof f_base_pri = refl
last_with-offsetof f_control = refl
last_with-offsetof cfsr = refl
last_with-offsetof hfsr = refl
last_with-offsetof mmar = refl
last_with-offsetof bfar = refl
last_with-offsetof stack_trace_pointer = refl

-- The words of the report after the handler.
word_at-captured :
    (base : ℕ) (e : Machine) (f : Field)
    → IsPlaced base e
    → word_at base (fault_handler base e) f ≡ captured e f
word_at-captured base e f p = rw (fault_handler-stores base e p) (
    load-stores_of base e stored_fields ((wdt_cr_addr, wdt_rst_key) ∷ [])
      (fault_handler base e).memory (offsetof f)
    ∙ ap
        (λ g. word_or e g (
          load ((wdt_cr_addr, wdt_rst_key) ∷ []) (fault_handler base e).memory (base + offsetof f)))
        (last_with-offsetof f))

-- Where the report, the frame of the interrupted code and the registers of the system lie apart, and
-- the report has room for 512 bytes of stack, every fault ends in a report and the reset. The report
-- holds the bytes of the registers of the code that was interrupted, with the value 1 in place of
-- PRIMASK, of the registers of the system control block and of the number of the exception, the pointer
-- to the frame, the bytes of the stack from there on, at most 512, and the checksum. The caches are
-- cleaned and invalidated before the reset.
pub handle_fault-Reported :
    (base : ℕ) (bytes : ℕ → ℕ) (stack_end : ℕ) (old : DeathReport) (e : Machine)
    → IsPlaced base e
    → length old.stack_trace ≡ 512
    → (r : DeathReport) × (handle_fault base bytes stack_end old e
        ≡ (r, clean_dcache ∷ invalidate_dcache ∷ reset_system ∷ []))
      × (r.context ≡ flatten (map (λ f. word_bytes (captured e f)) context_fields))
      × (r.stack_trace_pointer ≡ frame_pointer e)
      × Written bytes stack_end (report_in_memory base (fault_handler base e) old) r
unfolding handle_fault fault_handler_tail report_in_memory captured
handle_fault-Reported base bytes stack_end old e p room =
    let r : DeathReport = report_in_memory base (fault_handler base e) old in
    let written = generate_death_report-Written bytes stack_end r room in
    let words : (λ f. word_bytes (word_at base (fault_handler base e) f))
        ≡ (λ f. word_bytes (captured e f)) =
      fun_ext (λ f. ap word_bytes (word_at-captured base e f p)) in
    (
      written.0,
      ap (λ (x : Bool × DeathReport). (x.1, clean_dcache ∷ invalidate_dcache ∷ reset_system ∷ []))
          written.1,
      written.2.context ∙ ap (λ g. flatten (map g context_fields)) words,
      written.2.pointer ∙ word_at-captured base e stack_trace_pointer p,
      written.2,
    )
