-- ===== src/Report/Crc/Appended.antt =====
-- A message with its checksum appended has the checksum 0.
use taste_samx_rtems_runtime.Common.Bits.{bit_xor-lt, bit_xor_high, bit_xor_self}
use taste_samx_rtems_runtime.Report.Crc.Steps.{crc_bit-low, crc_bit-lt}
use taste_samx_rtems_runtime.Common.Word.{u16, ◌<<<◌}
use taste_samx_rtems_runtime.Common.{
  ℕ, List, ◌<◌, ◌++◌, ◌^◌, bit_xor, ◌/◌, ◌≡◌, ◌*◌, ◌∷◌, [], ◌%◌, arith, refl, suc, ◌∙◌, zero, ap,
  ◌+◌, ap₂,
}
use taste_samx_rtems_runtime.Report.Crc.{
  crc_bits, crc_bytes, crc_byte, calculate_crc, crc_bit, crc_initial_value,
}

-- Shifting a byte through: no bit reaches the polynomial.
byte_through : (x : ℕ) → x < 2 ^ 8 → crc_bits 8 x ≡ x * 2 ^ 8
unfolding crc_bits
byte_through x small =
    rw
      (
        crc_bit-low x (omega arith),
        crc_bit-low (x * 2) (omega arith),
        crc_bit-low (x * 2 * 2) (omega arith),
        crc_bit-low (x * 2 * 2 * 2) (omega arith),
        crc_bit-low (x * 2 * 2 * 2 * 2) (omega arith),
        crc_bit-low (x * 2 * 2 * 2 * 2 * 2) (omega arith),
        crc_bit-low (x * 2 * 2 * 2 * 2 * 2 * 2) (omega arith),
        crc_bit-low (x * 2 * 2 * 2 * 2 * 2 * 2 * 2) (omega arith),
      )
      (omega arith)

-- The high byte of a checksum cancels against itself.
byte_cancels : (crc : ℕ) → crc < 2 ^ 16 → bit_xor crc (u16 ((crc / 2 ^ 8) <<< 8)) ≡ crc % 2 ^ 8
byte_cancels crc small =
    let split : crc ≡ crc / 2 ^ 8 * 2 ^ 8 + crc % 2 ^ 8 = omega arith in
    let high : u16 ((crc / 2 ^ 8) <<< 8) ≡ crc / 2 ^ 8 * 2 ^ 8 = omega arith in
    let parts = bit_xor_high 8 (crc / 2 ^ 8) (crc / 2 ^ 8) (crc % 2 ^ 8) (omega arith) in
    omega (arith, ap₂ bit_xor split high, parts, bit_xor_self (crc / 2 ^ 8))

append_cancels : (crc : ℕ) → crc < 2 ^ 16 → crc_bytes (crc / 2 ^ 8 ∷ crc % 2 ^ 8 ∷ []) crc ≡ 0
unfolding crc_bytes crc_byte
append_cancels crc small =
    let l : ℕ = crc % 2 ^ 8 in
    let first : crc_bits 8 (bit_xor crc (u16 ((crc / 2 ^ 8) <<< 8))) ≡ l * 2 ^ 8 =
      ap (crc_bits 8) (byte_cancels crc small) ∙ byte_through l (omega arith) in
    let low : u16 (l <<< 8) ≡ l * 2 ^ 8 = omega arith in
    let same : bit_xor (l * 2 ^ 8) (u16 (l <<< 8)) ≡ 0 =
      ap (bit_xor (l * 2 ^ 8)) low ∙ bit_xor_self (l * 2 ^ 8) in
    ap (λ c. crc_bits 8 (bit_xor c (u16 (l <<< 8)))) first
    ∙ ap (crc_bits 8) same
    ∙ byte_through 0 (omega arith)

pub crc_bytes-append :
    (xs ys : List ℕ) (crc : ℕ) → crc_bytes (xs ++ ys) crc ≡ crc_bytes ys (crc_bytes xs crc)
unfolding crc_bytes
crc_bytes-append [] ys crc = refl
crc_bytes-append (x ∷ xs) ys crc = crc_bytes-append xs ys (crc_byte crc x)

pub crc_bits-lt : (n crc : ℕ) → crc < 2 ^ 16 → crc_bits n crc < 2 ^ 16
unfolding crc_bits
crc_bits-lt zero crc small = small
crc_bits-lt (suc n) crc small = crc_bits-lt n (crc_bit crc) (crc_bit-lt crc small)

pub crc_byte-lt : (crc byte : ℕ) → crc < 2 ^ 16 → crc_byte crc byte < 2 ^ 16
unfolding crc_byte
crc_byte-lt crc byte small =
    crc_bits-lt 8 (bit_xor crc (u16 (byte <<< 8)))
      (bit_xor-lt 16 crc (u16 (byte <<< 8)) small (omega arith))

pub crc_bytes-lt : (bs : List ℕ) (crc : ℕ) → crc < 2 ^ 16 → crc_bytes bs crc < 2 ^ 16
unfolding crc_bytes
crc_bytes-lt [] crc small = small
crc_bytes-lt (b ∷ bs) crc small = crc_bytes-lt bs (crc_byte crc b) (crc_byte-lt crc b small)

-- Over a message with its checksum appended, high byte first, the checksum is 0, so a reader can
-- check a report in one run.
pub calculate_crc-appended :
    (data_bytes : List ℕ)
    → (let crc = calculate_crc data_bytes in
        calculate_crc (data_bytes ++ (crc / 2 ^ 8 ∷ crc % 2 ^ 8 ∷ [])) ≡ 0)
unfolding calculate_crc
calculate_crc-appended data_bytes =
    let crc = crc_bytes data_bytes crc_initial_value in
    crc_bytes-append data_bytes (crc / 2 ^ 8 ∷ crc % 2 ^ 8 ∷ []) crc_initial_value
    ∙ append_cancels crc (crc_bytes-lt data_bytes crc_initial_value (omega arith))
