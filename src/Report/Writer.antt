-- ===== src/Report/Writer.antt =====
-- src/FaultHandler/DeathReportWriter.c: the stack in the report, and the report with its checksum.
pub mod Written
use taste_samx_rtems_runtime.Report.Crc.{calculate_crc}
use taste_samx_rtems_runtime.Common.Word.{sub32, u32}
use taste_samx_rtems_runtime.Common.{
  List, ℕ, Bool, suc, ◌%◌, ◌∷◌, true, ◌*◌, ◌++◌, ◌+◌, ◌^◌, if◌then◌else◌, set, ◌/◌, [], ltb, zero,
}

-- `DeathReportWriter_DeathReport`. `context` holds the bytes of the exception, of the registers and of
-- the system control block, which the assembly of Fault_Handler stores; `stack_trace` holds the bytes
-- of its words; `reserved` holds the reserved bytes and the one that aligns the report.
pub record DeathReport : Type 0 where
  pub checksum : ℕ
  pub was_seen : ℕ
  pub padding : ℕ
  pub context : List ℕ
  pub stack_trace_pointer : ℕ
  pub stack_trace_length : ℕ
  pub stack_trace : List ℕ
  pub reserved : List ℕ

-- `DEATH_REPORT_STACK_TRACE_SIZE`, in words.
abbrev pub death_report_stack_trace_size : ℕ
death_report_stack_trace_size = 128

-- The loop of `save_stack`, with the rounds that are left, from byte `i` on. `memory` reads a byte.
unfoldable pub copy_stack : (ℕ → ℕ) → ℕ → ℕ → ℕ → List ℕ → List ℕ
copy_stack memory pointer zero i bytes = bytes
copy_stack memory pointer (suc rounds) i bytes =
    copy_stack memory pointer rounds (i + 1) (set bytes i (memory (u32 (pointer + i))))

-- `save_stack`, where `stack_end` is the value of the variable `bsp_section_rtemsstack_end`.
unfoldable pub save_stack : (ℕ → ℕ) → ℕ → DeathReport → DeathReport
save_stack memory stack_end r =
    let available_bytes = sub32 stack_end r.stack_trace_pointer in
    let max_bytes = death_report_stack_trace_size * 4 in
    let count = if ltb available_bytes max_bytes then available_bytes else max_bytes in
    record r {
      stack_trace_length = count;
      stack_trace = copy_stack memory r.stack_trace_pointer count 0 r.stack_trace;
    }

-- A 32-bit word in memory, lowest byte first.
abbrev pub word_bytes : ℕ → List ℕ
word_bytes w = w % 2 ^ 8 ∷ w / 2 ^ 8 % 2 ^ 8 ∷ w / 2 ^ 16 % 2 ^ 8 ∷ w / 2 ^ 24 % 2 ^ 8 ∷ []

-- The report in memory behind its checksum.
abbrev pub payload : DeathReport → List ℕ
payload r =
    r.was_seen
    ∷ r.padding
    ∷ (r.context
        ++ (word_bytes r.stack_trace_pointer
            ++ (word_bytes r.stack_trace_length ++ (r.stack_trace ++ r.reserved))))

-- `calculate_report_crc`, over the report without the two bytes of the checksum.
unfoldable pub calculate_report_crc : DeathReport → ℕ
calculate_report_crc r = calculate_crc (payload r)

-- `DeathReportWriter_GenerateDeathReport`
unfoldable pub generate_death_report : (ℕ → ℕ) → ℕ → DeathReport → Bool × DeathReport
generate_death_report memory stack_end r =
    let r1 = record (save_stack memory stack_end r) { padding = 0; was_seen = 0 } in
    (true, record r1 { checksum = calculate_report_crc r1 })
