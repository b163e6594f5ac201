-- ===== src/Common/Numbers.antt =====
-- Remainders and quotients of native numbers.
use Prim.Native.Nat.{ℕ, ◌+◌, ◌-◌, ◌%◌, ◌<◌, ◌≤◌}
use mathlib.Core.Path.{◌≡◌, sym, ap, ◌∙◌}
use mathlib.Core.Logic.{◌≢◌}
use native.Mathlib.Omega.{arith}
use native.Mathlib.Nat.{mod-lt, mod-eq_of_lt, mod-add-mod, mod-eq-sub-mod, mod_self}
use native.Mathlib.Decide.{dec_lt}

-- Two numbers that are less than `m` apart have different remainders.
pub mod_apart : (a d m : ℕ) → 0 < d → d < m → (a + d) % m ≢ a % m
mod_apart a d m p q = elim (dec_lt (a % m + d) m) [
  | yes small ↦ λ e. omega (arith, mod-add-mod a m d, mod-eq_of_lt small)
  | no large ↦ λ e.
      let r = mod-lt a {m = m} (omega arith) in
      let small : a % m + d - m < m = omega arith in
      let large_le : m ≤ a % m + d = omega arith in
      omega (arith, mod-add-mod a m d, mod-eq-sub-mod large_le, mod-eq_of_lt small)
]

-- Before a number that is not a multiple of `m` the remainder is one less.
pub mod-before : (n m : ℕ) → 0 < m → (n + 1) % m ≢ 0 → (n + 1) % m ≡ n % m + 1
mod-before n m p ne = elim (dec_lt (n % m + 1) m) [
  | yes small ↦ omega (arith, mod-add-mod n m 1, mod-eq_of_lt small)
  | no large ↦
      let r = mod-lt n p in
      let full : n % m + 1 ≡ m = omega arith in
      absurd (ne (sym (mod-add-mod n m 1) ∙ ap (λ k. k % m) full ∙ mod_self m))
]
