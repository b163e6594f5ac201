-- ===== src/Report/Crc.antt =====
-- The checksum of src/FaultHandler/DeathReportWriter.c.
pub mod Steps
pub mod Appended
pub mod Detects
use taste_samx_rtems_runtime.Common.Word.{any_bit, u16, ◌<<<◌}
use taste_samx_rtems_runtime.Common.{List, ℕ, bit_xor, if◌then◌else◌, suc, ◌∷◌, [], zero}

abbrev pub crc_initial_value : ℕ
crc_initial_value = 0xFFFF

abbrev pub crc_polynomial : ℕ
crc_polynomial = 0x1021

-- The body of the inner loop of `calculate_crc`, with the constants' names.
unfoldable pub crc_bit : ℕ → ℕ
crc_bit crc =
    if any_bit crc 0x8000 then u16 (bit_xor (crc <<< 1) crc_polynomial) else u16 (crc <<< 1)

-- The inner loop.
unfoldable pub crc_bits : ℕ → ℕ → ℕ
crc_bits zero crc = crc
crc_bits (suc rounds) crc = crc_bits rounds (crc_bit crc)

-- The body of the outer loop.
unfoldable pub crc_byte : ℕ → ℕ → ℕ
crc_byte crc byte = crc_bits 8 (bit_xor crc (u16 (byte <<< 8)))

-- The outer loop.
unfoldable pub crc_bytes : List ℕ → ℕ → ℕ
crc_bytes [] crc = crc
crc_bytes (b ∷ bs) crc = crc_bytes bs (crc_byte crc b)

-- `calculate_crc`
unfoldable pub calculate_crc : List ℕ → ℕ
calculate_crc data_bytes = crc_bytes data_bytes crc_initial_value
