-- ===== src/Report/Crc/Steps.antt =====
-- One step of the checksum: it keeps 16 bits, and it loses nothing.
use taste_samx_rtems_runtime.Common.Bits.{
  bit_xor-lt, bit_xor_step, bit_and_single, bit_xor-bit_xor, bit_xor_parts,
}
use native.Mathlib.Decide.{dec_lt}
use taste_samx_rtems_runtime.Common.Word.{any_bit, u16, ◌<<<◌}
use taste_samx_rtems_runtime.Report.Crc.{crc_bit, crc_polynomial}
use taste_samx_rtems_runtime.Common.{
  ℕ, bit_xor, ◌<◌, ◌*◌, ◌^◌, ◌≡◌, ◌≤◌, arith, not, ◌%◌, ◌-◌, ltb, sym, ◌∙◌, ap, ◌+◌,
}

-- The test of the highest bit.
high_bit : (crc : ℕ) → crc < 2 ^ 16 → any_bit crc 0x8000 ≡ not (ltb crc 0x8000)
high_bit crc small = ground (arith, bit_and_single 15 crc)

pub crc_bit-low : (crc : ℕ) → crc < 2 ^ 15 → crc_bit crc ≡ crc * 2
unfolding crc_bit
crc_bit-low crc small = ground (arith, high_bit crc (omega arith))

-- On a set highest bit.
xor_high :
    (crc : ℕ)
    → crc < 2 ^ 16
    → 2 ^ 15 ≤ crc
    → u16 (bit_xor (crc <<< 1) crc_polynomial) ≡ bit_xor ((crc - 2 ^ 15) * 2) crc_polynomial
xor_high crc small high =
    let r : ℕ = (crc - 2 ^ 15) * 2 in
    let split : crc <<< 1 ≡ 1 * 2 ^ 16 + r = omega arith in
    let parts : bit_xor (1 * 2 ^ 16 + r) (0 * 2 ^ 16 + crc_polynomial)
        ≡ 1 * 2 ^ 16 + bit_xor r crc_polynomial =
      bit_xor_parts 16 1 0 r crc_polynomial (omega arith) (omega arith) in
    let whole : bit_xor (crc <<< 1) crc_polynomial ≡ 1 * 2 ^ 16 + bit_xor r crc_polynomial =
      ap (λ x. bit_xor x crc_polynomial) split ∙ parts in
    omega (arith, whole, bit_xor-lt 16 r crc_polynomial (omega arith) (omega arith))

pub crc_bit-high :
    (crc : ℕ)
    → crc < 2 ^ 16
    → 2 ^ 15 ≤ crc
    → crc_bit crc ≡ bit_xor ((crc - 2 ^ 15) * 2) crc_polynomial
unfolding crc_bit
crc_bit-high crc small high = ground (arith, high_bit crc small, xor_high crc small high)

pub crc_bit-lt : (crc : ℕ) → crc < 2 ^ 16 → crc_bit crc < 2 ^ 16
crc_bit-lt crc small = elim (dec_lt crc (2 ^ 15)) [
  | yes low ↦ omega (arith, crc_bit-low crc low)
  | no high ↦ omega (
    arith,
    crc_bit-high crc small (omega arith),
    bit_xor-lt 16 ((crc - 2 ^ 15) * 2) crc_polynomial (omega arith) (omega arith),
  )
]

-- The polynomial is odd, so the lowest bit tells whether the highest bit was set.
odd_high : (x : ℕ) → bit_xor (x * 2) crc_polynomial % 2 ≡ 1
odd_high x = omega (arith, bit_xor_step (x * 2) crc_polynomial)

-- Different checksums stay different.
pub crc_bit_injective : (a b : ℕ) → a < 2 ^ 16 → b < 2 ^ 16 → crc_bit a ≡ crc_bit b → a ≡ b
crc_bit_injective a b p q e = elim (dec_lt a (2 ^ 15)) [
  | yes low ↦ elim (dec_lt b (2 ^ 15)) [
    | yes low' ↦ omega (arith, crc_bit-low a low, crc_bit-low b low', e)
    | no high' ↦
        absurd (
          omega
            (arith, crc_bit-low a low, crc_bit-high b q (omega arith), odd_high (b - 2 ^ 15), e))
  ]
  | no high ↦ elim (dec_lt b (2 ^ 15)) [
    | yes low' ↦ absurd (
        omega (arith, crc_bit-low b low', crc_bit-high a p (omega arith), odd_high (a - 2 ^ 15), e))
    | no high' ↦
        let x = (a - 2 ^ 15) * 2 in
        let y = (b - 2 ^ 15) * 2 in
        let same : bit_xor x crc_polynomial ≡ bit_xor y crc_polynomial =
          sym (crc_bit-high a p (omega arith)) ∙ e ∙ crc_bit-high b q (omega arith) in
        let back = bit_xor-bit_xor 16 x crc_polynomial (omega arith) (omega arith) in
        let back' = bit_xor-bit_xor 16 y crc_polynomial (omega arith) (omega arith) in
        let equal : x ≡ y = sym back ∙ ap (λ z. bit_xor z crc_polynomial) same ∙ back' in
        omega (arith, equal)
  ]
]
