-- ===== src/Report/Tests.antt =====
-- The checksum on a known value, and a small report.
use taste_samx_rtems_runtime.Report.Writer.Written.{Written, generate_death_report-Written}
use taste_samx_rtems_runtime.Report.Crc.Appended.{calculate_crc-appended}
use taste_samx_rtems_runtime.Report.Crc.Detects.{calculate_crc-detects}
use taste_samx_rtems_runtime.Common.{
  [], ◌∷◌, replicate, ◌%◌, ◌++◌, ◌/◌, ◌≡◌, ◌≢◌, true, ◌^◌, arith, refl, length-replicate, ℕ,
}
use taste_samx_rtems_runtime.Report.Writer.{DeathReport, generate_death_report}
use taste_samx_rtems_runtime.Report.Crc.{calculate_crc, crc_bytes, crc_byte, crc_bits, crc_bit}

-- The nine digits of the check value of CRC-16/CCITT-FALSE.
check_value :
    calculate_crc (0x31 ∷ 0x32 ∷ 0x33 ∷ 0x34 ∷ 0x35 ∷ 0x36 ∷ 0x37 ∷ 0x38 ∷ 0x39 ∷ []) ≡ 0x29B1
unfolding calculate_crc crc_bytes crc_byte crc_bits crc_bit
check_value = refl

calculate_crc-appended_example :
    (let crc = calculate_crc (1 ∷ 2 ∷ []) in
      calculate_crc ((1 ∷ 2 ∷ []) ++ (crc / 2 ^ 8 ∷ crc % 2 ^ 8 ∷ [])) ≡ 0)
calculate_crc-appended_example = calculate_crc-appended (1 ∷ 2 ∷ [])

calculate_crc-detects_example :
    calculate_crc ((1 ∷ []) ++ (7 ∷ 9 ∷ [])) ≢ calculate_crc ((1 ∷ []) ++ (8 ∷ 9 ∷ []))
calculate_crc-detects_example =
    calculate_crc-detects (1 ∷ []) (9 ∷ []) 7 8 (omega arith) (omega arith) (λ e. omega arith)

abbrev blank : DeathReport
blank = record {
  checksum = 0;
  was_seen = 1;
  padding = 0xFF;
  context = [];
  stack_trace_pointer = 0x2000;
  stack_trace_length = 0;
  stack_trace = replicate 512 0;
  reserved = [];
}

generate_death_report-Written_example :
    (r' : DeathReport) × (generate_death_report (λ a. a % 256) 0x2004 blank ≡ (true, r'))
    × Written (λ a. a % 256) 0x2004 blank r'
generate_death_report-Written_example =
    generate_death_report-Written (λ a. a % 256) 0x2004 blank
      (length-replicate 512 (let zero_byte : ℕ = 0 in zero_byte))
