-- ===== src/Report/Crc/Detects.antt =====
-- A change inside one byte of a message changes its checksum.
use taste_samx_rtems_runtime.Report.Crc.Appended.{crc_byte-lt, crc_bytes-lt, crc_bytes-append}
use taste_samx_rtems_runtime.Report.Crc.Steps.{crc_bit_injective, crc_bit-lt}
use taste_samx_rtems_runtime.Common.Word.{u16, ◌<<<◌}
use taste_samx_rtems_runtime.Common.Bits.{bit_xor_comm, bit_xor-bit_xor, bit_xor-lt}
use taste_samx_rtems_runtime.Report.Crc.{
  calculate_crc, crc_bits, crc_byte, crc_bytes, crc_initial_value, crc_bit,
}
use taste_samx_rtems_runtime.Common.{
  ℕ, List, ◌<◌, ◌^◌, bit_xor, ◌≡◌, ◌≢◌, suc, sym, ◌++◌, ◌∷◌, ◌∙◌, [], ap, arith, zero,
}

xor_cancel_right :
    (a b c : ℕ) → a < 2 ^ 16 → b < 2 ^ 16 → c < 2 ^ 16 → bit_xor a c ≡ bit_xor b c → a ≡ b
xor_cancel_right a b c p q r e =
    sym (bit_xor-bit_xor 16 a c p r) ∙ ap (λ z. bit_xor z c) e ∙ bit_xor-bit_xor 16 b c q r

xor_cancel_left :
    (a b c : ℕ) → a < 2 ^ 16 → b < 2 ^ 16 → c < 2 ^ 16 → bit_xor c a ≡ bit_xor c b → a ≡ b
xor_cancel_left a b c p q r e =
    xor_cancel_right a b c p q r (bit_xor_comm 16 a c p r ∙ e ∙ bit_xor_comm 16 c b r q)

crc_bits_injective : (n a b : ℕ) → a < 2 ^ 16 → b < 2 ^ 16 → crc_bits n a ≡ crc_bits n b → a ≡ b
unfolding crc_bits
crc_bits_injective zero a b p q e = e
crc_bits_injective (suc n) a b p q e =
    crc_bit_injective a b p q
      (crc_bits_injective n (crc_bit a) (crc_bit b) (crc_bit-lt a p) (crc_bit-lt b q) e)

-- Two checksums that differ before a byte differ behind it.
crc_byte_injective : (a b x : ℕ) → a < 2 ^ 16 → b < 2 ^ 16 → crc_byte a x ≡ crc_byte b x → a ≡ b
unfolding crc_byte
crc_byte_injective a b x p q e =
    let mask : u16 (x <<< 8) < 2 ^ 16 = omega arith in
    xor_cancel_right a b (u16 (x <<< 8)) p q mask (
      crc_bits_injective 8 (bit_xor a (u16 (x <<< 8))) (bit_xor b (u16 (x <<< 8)))
        (bit_xor-lt 16 a (u16 (x <<< 8)) p mask) (bit_xor-lt 16 b (u16 (x <<< 8)) q mask) e)

-- Two different bytes lead one checksum to different ones.
byte_injective :
    (crc x y : ℕ) → crc < 2 ^ 16 → x < 2 ^ 8 → y < 2 ^ 8 → crc_byte crc x ≡ crc_byte crc y → x ≡ y
unfolding crc_byte
byte_injective crc x y p q r e =
    let mask : u16 (x <<< 8) < 2 ^ 16 = omega arith in
    let mask' : u16 (y <<< 8) < 2 ^ 16 = omega arith in
    let same : u16 (x <<< 8) ≡ u16 (y <<< 8) =
      xor_cancel_left (u16 (x <<< 8)) (u16 (y <<< 8)) crc mask mask' p (
        crc_bits_injective 8 (bit_xor crc (u16 (x <<< 8))) (bit_xor crc (u16 (y <<< 8)))
          (bit_xor-lt 16 crc (u16 (x <<< 8)) p mask) (bit_xor-lt 16 crc (u16 (y <<< 8)) p mask')
          e) in
    omega (arith, same)

crc_bytes_injective :
    (bs : List ℕ) (a b : ℕ) → a < 2 ^ 16 → b < 2 ^ 16 → crc_bytes bs a ≡ crc_bytes bs b → a ≡ b
unfolding crc_bytes
crc_bytes_injective [] a b p q e = e
crc_bytes_injective (x ∷ bs) a b p q e =
    crc_byte_injective a b x p q (
      crc_bytes_injective bs (crc_byte a x) (crc_byte b x) (crc_byte-lt a x p) (crc_byte-lt b x q)
        e)

-- Two messages that differ in one byte and nowhere else have different checksums, so a fault
-- inside one byte is detected.
pub calculate_crc-detects :
    (before behind : List ℕ) (x y : ℕ)
    → x < 2 ^ 8
    → y < 2 ^ 8
    → x ≢ y
    → calculate_crc (before ++ (x ∷ behind)) ≢ calculate_crc (before ++ (y ∷ behind))
unfolding calculate_crc crc_bytes
calculate_crc-detects before behind x y p q differ = λ e.
    let c = crc_bytes before crc_initial_value in
    let small = crc_bytes-lt before crc_initial_value (omega arith) in
    let same : crc_bytes behind (crc_byte c x) ≡ crc_bytes behind (crc_byte c y) =
      sym (crc_bytes-append before (x ∷ behind) crc_initial_value)
      ∙ e
      ∙ crc_bytes-append before (y ∷ behind) crc_initial_value in
    differ (
      byte_injective c x y small p q (
        crc_bytes_injective behind (crc_byte c x) (crc_byte c y) (crc_byte-lt c x small)
          (crc_byte-lt c y small) same))
