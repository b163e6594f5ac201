-- ===== src/Hal/Time/Split.antt =====
-- The product of ticks and tick length, in halves.
use native.Mathlib.Nat.{
  add-mul, mul-le-mul, mul-add, mul-le-mul_right, mul_assoc, mul_right_comm, add-mul-div_right,
}
use taste_samx_rtems_runtime.Common.Word.{u64}
use taste_samx_rtems_runtime.Common.Bits.{bit_and_low}
use taste_samx_rtems_runtime.Hal.Time.{elapsed_time_in_ns, set_ns_per_tick_q32, total_ticks}
use taste_samx_rtems_runtime.Common.{
  ℕ, bit_and, ◌*◌, ◌<◌, ◌≡◌, ◌%◌, ◌+◌, ◌/◌, ◌^◌, ap, arith, ◌≤◌, ◌⊎◌, inl, ◌∙◌, inr, sym,
}

-- The halves of a number.
halves : (x : ℕ) → x ≡ x / 2 ^ 32 * 2 ^ 32 + x % 2 ^ 32
halves x = omega arith

low_half : (x : ℕ) → bit_and x 0xFFFFFFFF ≡ x % 2 ^ 32
low_half x = bit_and_low 32 x

-- The product of `t` and `q` without its 32 low digits, from the halves of both.
product_halves :
    (t q : ℕ)
    → t * q / 2 ^ 32
      ≡ t / 2 ^ 32 * q + (t % 2 ^ 32 * (q / 2 ^ 32) + t % 2 ^ 32 * (q % 2 ^ 32) / 2 ^ 32)
product_halves t q =
    let th : ℕ = t / 2 ^ 32 in
    let tl : ℕ = t % 2 ^ 32 in
    let qh : ℕ = q / 2 ^ 32 in
    let ql : ℕ = q % 2 ^ 32 in
    let whole : t * q ≡ tl * ql + (th * q + tl * qh) * 2 ^ 32 =
      (let a : t * q ≡ (th * 2 ^ 32 + tl) * q = ap (λ x. x * q) (halves t) in
        let b : (th * 2 ^ 32 + tl) * q ≡ th * 2 ^ 32 * q + tl * q = add-mul (th * 2 ^ 32) tl q in
        let c : tl * q ≡ tl * (qh * 2 ^ 32 + ql) = ap (λ x. tl * x) (halves q) in
        let d : tl * (qh * 2 ^ 32 + ql) ≡ tl * (qh * 2 ^ 32) + tl * ql =
          mul-add tl (qh * 2 ^ 32) ql in
        let e : tl * (qh * 2 ^ 32) ≡ tl * qh * 2 ^ 32 = sym (mul_assoc tl qh (2 ^ 32)) in
        let f : th * 2 ^ 32 * q ≡ th * q * 2 ^ 32 = mul_right_comm th (2 ^ 32) q in
        omega (arith, a, b, c, d, e, f)) in
    ap (λ x. x / 2 ^ 32) whole
    ∙ add-mul-div_right (tl * ql) (th * q + tl * qh) (omega arith)
    ∙ omega arith

-- The product of two halves has 64 digits.
product-lt : (a b : ℕ) → a < 2 ^ 32 → b < 2 ^ 32 → a * b < 2 ^ 64
product-lt a b p q =
    let bound : a * b ≤ 0xFFFFFFFF * 0xFFFFFFFF =
      mul-le-mul {n₁ = a} {m₁ = b} {n₂ = 0xFFFFFFFF} {m₂ = 0xFFFFFFFF} (omega arith)
        (omega arith) in
    omega (arith, bound)

-- For a tick length of 64 bits, the elapsed time that is computed from the halves is the product
-- of the ticks and the tick length without its 32 low digits, modulo 2 ^ 64.
pub elapsed_time_in_ns-product :
    (q reloads ticks : ℕ)
    → q < 2 ^ 64
    → elapsed_time_in_ns (set_ns_per_tick_q32 q) reloads ticks
      ≡ u64 (total_ticks reloads ticks * q / 2 ^ 32)
unfolding elapsed_time_in_ns set_ns_per_tick_q32
elapsed_time_in_ns-product q reloads ticks small =
    let t = total_ticks reloads ticks in
    let low = product-lt (t % 2 ^ 32) (q % 2 ^ 32) (omega arith) (omega arith) in
    rw (low_half t, low_half q, product_halves t q) (omega (arith, low))

-- The ticks since the start, without a wrap-around.
abbrev pub ticks_of : ℕ → ℕ → ℕ
ticks_of reloads ticks = reloads * 65535 + ticks

ticks_of-total :
    (reloads ticks : ℕ)
    → reloads < 2 ^ 32
    → ticks ≤ 65535
    → total_ticks reloads ticks ≡ ticks_of reloads ticks
ticks_of-total reloads ticks p q = omega arith

-- With a 16-bit counter and a tick of less than 65536 ns nothing wraps around.
pub elapsed_time_in_ns-exact :
    (q reloads ticks : ℕ)
    → q < 2 ^ 48
    → reloads < 2 ^ 32
    → ticks ≤ 65535
    → elapsed_time_in_ns (set_ns_per_tick_q32 q) reloads ticks ≡ ticks_of reloads ticks * q / 2 ^ 32
elapsed_time_in_ns-exact q reloads ticks small p r =
    let e = elapsed_time_in_ns-product q reloads ticks (omega arith) in
    let bound : ticks_of reloads ticks * q ≤ 0xFFFFFFFFFFFF * 0xFFFFFFFFFFFF =
      mul-le-mul {n₁ = ticks_of reloads ticks} {m₁ = q} {n₂ = 0xFFFFFFFFFFFF} {m₂ = 0xFFFFFFFFFFFF}
        (omega arith) (omega arith) in
    e ∙ ap (λ t. u64 (t * q / 2 ^ 32)) (ticks_of-total reloads ticks p r) ∙ omega (arith, bound)

-- The time never goes back: with a tick of less than 65536 ns, of two snapshots of the 32-bit
-- count of reloads and of the 16-bit counter, the one with more reloads, or with the same and no
-- fewer ticks, is not earlier.
pub elapsed_time_in_ns_monotone :
    (q r1 t1 r2 t2 : ℕ)
    → q < 2 ^ 48
    → r1 < 2 ^ 32
    → r2 < 2 ^ 32
    → t1 ≤ 65535
    → t2 ≤ 65535
    → (r1 < r2) ⊎ ((r1 ≡ r2) × (t1 ≤ t2))
    → elapsed_time_in_ns (set_ns_per_tick_q32 q) r1 t1
      ≤ elapsed_time_in_ns (set_ns_per_tick_q32 q) r2 t2
elapsed_time_in_ns_monotone q r1 t1 r2 t2 small p1 p2 b1 b2 later =
    let more : ticks_of r1 t1 ≤ ticks_of r2 t2 = elim later [
      | inl l ↦ omega (arith, l)
      | inr e ↦ omega (arith, e.0, e.1)
    ] in
    let product : ticks_of r1 t1 * q ≤ ticks_of r2 t2 * q = mul-le-mul_right q more in
    omega (
      arith,
      elapsed_time_in_ns-exact q r1 t1 small p1 b1,
      elapsed_time_in_ns-exact q r2 t2 small p2 b2,
      product,
    )
