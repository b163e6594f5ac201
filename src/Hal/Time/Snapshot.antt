-- ===== src/Hal/Time/Snapshot.antt =====
-- The loop that reads the reloads and the ticks.
use taste_samx_rtems_runtime.Common.Word.{u32}
use taste_samx_rtems_runtime.Common.{
  Bool, List, false, ℕ, ◌<◌, ◌≡◌, Option, if◌then◌else◌, not, ◌+◌, ◌^◌, arith, none, ◌==◌, ◌∷◌,
  some, suc, true, Bool-cases, [], zero, inl, ap, sym, inr, ◌∙◌, refl,
}
use taste_samx_rtems_runtime.Hal.Time.{Round, Reloads, interrupts, snapshot, timer_irq_handler}

-- A round during which the timer does not interrupt.
abbrev pub is_quiet : Round → Bool
is_quiet r = (r.before_reloads + (r.before_ticks + r.before_check)) == 0

-- The first quiet round: the reloads during it, and its ticks. `reloads` is the count before the loop.
abbrev pub first_quiet : List Round → ℕ → Option (ℕ × ℕ)
first_quiet [] reloads = none
first_quiet (r ∷ rs) reloads =
    let rest =
      first_quiet rs (u32 (reloads + (r.before_reloads + (r.before_ticks + r.before_check)))) in
    if is_quiet r then some (reloads, u32 r.ticks) else rest

interrupts-count :
    (n : ℕ) (s : Reloads)
    → s.reloads_counter < 2 ^ 32
    → (interrupts n s).reloads_counter ≡ u32 (s.reloads_counter + n)
unfolding timer_irq_handler
interrupts-count zero s small = omega arith
interrupts-count (suc n) s small = omega (arith, interrupts-count n s small)

interrupts_modified :
    (n : ℕ) (s : Reloads)
    → (interrupts n s).reloads_modified ≡ (if n == 0 then s.reloads_modified else true)
unfolding timer_irq_handler
interrupts_modified zero s = ground arith
interrupts_modified (suc n) s = ground arith

module _ (r : Round) (s : Reloads) where
  abbrev s1 : Reloads
  s1 = interrupts r.before_reloads (record s { reloads_modified = false })

  abbrev s2 : Reloads
  s2 = interrupts r.before_ticks s1

  abbrev s3 : Reloads
  s3 = interrupts r.before_check s2

  round_modified : s3.reloads_modified ≡ not (is_quiet r)
  round_modified = ground (
    arith,
    interrupts_modified r.before_reloads (record s { reloads_modified = false }),
    interrupts_modified r.before_ticks s1,
    interrupts_modified r.before_check s2,
  )

  module _ (small : s.reloads_counter < 2 ^ 32) where
    s1_count : s1.reloads_counter ≡ u32 (s.reloads_counter + r.before_reloads)
    s1_count = interrupts-count r.before_reloads (record s { reloads_modified = false }) small

    s3_count :
        s3.reloads_counter
        ≡ u32 (s.reloads_counter + (r.before_reloads + (r.before_ticks + r.before_check)))
    s3_count =
        let c2 = interrupts-count r.before_ticks s1 (omega (arith, s1_count)) in
        let c3 = interrupts-count r.before_check s2 (omega (arith, c2)) in
        omega (arith, s1_count, c2, c3)

-- From a 32-bit count of reloads, the loop returns the reloads and the ticks of the first round
-- that no timer interrupt disturbs, and it does not end within rounds that are all disturbed.
pub snapshot-first_quiet :
    (rs : List Round) (s : Reloads)
    → s.reloads_counter < 2 ^ 32
    → snapshot rs s ≡ first_quiet rs s.reloads_counter
unfolding snapshot
snapshot-first_quiet [] s small = refl
snapshot-first_quiet (r ∷ rs) s small = elim (Bool-cases (is_quiet r)) [
  | inl quiet ↦
      let none_before : s.reloads_counter ≡ (s1 r s).reloads_counter =
        omega (arith, s1_count r s small, quiet_before r quiet) in
      rw (round_modified r s, quiet) (ap (λ n. some (n, u32 r.ticks)) (sym none_before))
  | inr disturbed ↦
      rw (round_modified r s, disturbed)
        (snapshot-first_quiet rs (s3 r s) (omega (arith, s3_count r s small))
          ∙ ap (first_quiet rs) (s3_count r s small))
]
  where
    quiet_before : (r : Round) → is_quiet r ≡ true → r.before_reloads ≡ 0
    quiet_before r q = ground arith
