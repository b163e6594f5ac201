-- ===== src/Fault/Stored.antt =====
-- The stores of the parts of the handler.
use taste_samx_rtems_runtime.Fault.Expected.{IsPlaced, captured, stores_of, register_fields}
use taste_samx_rtems_runtime.Common.Word.{u32}
use taste_samx_rtems_runtime.Fault.Captured.{
  Saves, frame_pointer, Saves-append, stacked-Saves, live-Saves, moved-Saves, Agrees, IsClear,
  store-Agrees, put_r1-Agrees, put_r2-Agrees,
}
use taste_samx_rtems_runtime.Fault.Handler.{
  save_registers, cfsr_address, stacked, wdt_cr_addr, select_stack, wdt_rst_key,
}
use taste_samx_rtems_runtime.Fault.Report.{
  Field, f_r0, offsetof, exception_id, f_r1, f_r2, f_r3, f_r4, f_r5, f_r6, f_r7, f_r8, f_r9, f_r10,
  f_r11, f_r12, f_msp, f_psp, f_lr, f_pc, f_psr, f_pri_mask, f_fault_mask, f_base_pri, f_control,
  offsetof-le,
}
use taste_samx_rtems_runtime.Fault.{
  Machine, ipsr, r4, r5, r6, r7, r8, r9, r10, r11, msp, psp, faultmask, basepri, control, primask,
  exec, step, r1, lr, ldr_post, r2, cpsid_i, str, r0, load, put, ldr,
}
use taste_samx_rtems_runtime.Common.{
  List, ℕ, ◌+◌, ◌∷◌, ◌≤◌, [], ◌^◌, arith, bit_and, ◌<◌, ◌≡◌, Bool, ◌==◌, drop, ap, true, false, inr,
  refl, ◌∙◌,
}

module _ (base : ℕ) (e : Machine) (p : IsPlaced base e) where
  pub fits : base + 116 ≤ 2 ^ 32
  fits = omega (arith, p.report)

  stacked_at :
      (k : ℕ) (f : Field)
      → offsetof f ≤ 112
      → k ≤ 28
      → Saves base e fits (stacked k f) ((base + offsetof f, e.memory (frame_pointer e + k)) ∷ [])
  stacked_at k f inside small =
      stacked-Saves base e fits k f inside (omega (arith, p.frame, small))
        ((λ h. ground (arith, p.watchdog, small, h)), ground (arith, p.apart, small))

  pub save_registers-Saves : Saves base e fits save_registers (stores_of base e register_fields [])
  unfolding save_registers captured
  save_registers-Saves =
      Saves-append base e fits (stacked_at 0 f_r0 (offsetof-le f_r0) (omega arith)) (
        Saves-append base e fits (stacked_at 4 f_r1 (offsetof-le f_r1) (omega arith)) (
          Saves-append base e fits (stacked_at 8 f_r2 (offsetof-le f_r2) (omega arith)) (
            Saves-append base e fits (stacked_at 12 f_r3 (offsetof-le f_r3) (omega arith)) (
              Saves-append base e fits
                (live-Saves base e fits r4 f_r4 (omega arith) (offsetof-le f_r4))
                (Saves-append base e fits
                  (live-Saves base e fits r5 f_r5 (omega arith) (offsetof-le f_r5))
                  (Saves-append base e fits
                    (live-Saves base e fits r6 f_r6 (omega arith) (offsetof-le f_r6))
                    (Saves-append base e fits
                      (live-Saves base e fits r7 f_r7 (omega arith) (offsetof-le f_r7))
                      (Saves-append base e fits
                        (live-Saves base e fits r8 f_r8 (omega arith) (offsetof-le f_r8))
                        (Saves-append base e fits
                          (live-Saves base e fits r9 f_r9 (omega arith) (offsetof-le f_r9))
                          (Saves-append base e fits
                            (live-Saves base e fits r10 f_r10 (omega arith) (offsetof-le f_r10))
                            (Saves-append base e fits
                              (live-Saves base e fits r11 f_r11 (omega arith) (offsetof-le f_r11))
                              (Saves-append base e fits
                                (stacked_at 16 f_r12 (offsetof-le f_r12) (omega arith))
                                (Saves-append base e fits
                                  (moved-Saves base e fits msp f_msp (offsetof-le f_msp))
                                  (Saves-append base e fits
                                    (moved-Saves base e fits psp f_psp (offsetof-le f_psp))
                                    (Saves-append base e fits
                                      (stacked_at 20 f_lr (offsetof-le f_lr) (omega arith))
                                      (Saves-append base e fits
                                        (stacked_at 24 f_pc (offsetof-le f_pc) (omega arith))
                                        (Saves-append base e fits
                                          (stacked_at 28 f_psr (offsetof-le f_psr) (omega arith))
                                          (Saves-append base e fits
                                            (moved-Saves base e fits primask f_pri_mask
                                              (offsetof-le f_pri_mask))
                                            (Saves-append base e fits
                                              (moved-Saves base e fits faultmask f_fault_mask
                                                (offsetof-le f_fault_mask))
                                              (Saves-append base e fits
                                                (moved-Saves base e fits basepri f_base_pri
                                                  (offsetof-le f_base_pri))
                                                (moved-Saves base e fits control f_control
                                                  (offsetof-le f_control))))))))))))))))))))))

  -- A word of the system control block: "ldr r2, [r1], #n; str r2, [r0, #f]".
  pub walk-Agrees :
      (m : Machine) (s : List (ℕ × ℕ)) (a n : ℕ) (f : Field)
      → cfsr_address ≤ a
      → m.reg r1 ≡ a
      → Agrees base e fits m s
      → Agrees base e fits
          (exec (ldr_post r2 r1 n ∷ str r2 r0 (offsetof f) ∷ []) m)
          ((base + offsetof f, e.memory a) ∷ s)
        × (exec (ldr_post r2 r1 n ∷ str r2 r0 (offsetof f) ∷ []) m).reg r1 ≡ u32 (a + n)
  unfolding exec step
  walk-Agrees m s a n f high at_a agrees =
      let v : ℕ = load m.stores m.memory (m.reg r1) in
      let clear : IsClear base a =
        ((λ h. omega (arith, h, high)), inr (omega (arith, high, p.report))) in
      (
        store-Agrees base e fits (put r1 (u32 (m.reg r1 + n)) (put r2 v m)) s f v (e.memory a)
            (offsetof-le f) (ap (load m.stores m.memory) at_a ∙ agrees.untouched a clear)
            (put_r1-Agrees base e fits (put r2 v m) s (u32 (m.reg r1 + n))
              (put_r2-Agrees base e fits m s v agrees)),
        ap (λ x. u32 (x + n)) at_a,
      )

  -- The last one: "ldr r2, [r1]; str r2, [r0, #f]".
  pub ldr-Agrees :
      (m : Machine) (s : List (ℕ × ℕ)) (a : ℕ) (f : Field)
      → (cfsr_address ≤ a) × (a < 2 ^ 32)
      → m.reg r1 ≡ a
      → Agrees base e fits m s
      → Agrees base e fits
          (exec (ldr r2 r1 0 ∷ str r2 r0 (offsetof f) ∷ []) m)
          ((base + offsetof f, e.memory a) ∷ s)
  unfolding exec step
  ldr-Agrees m s a f (high, small) at_a agrees =
      let v : ℕ = load m.stores m.memory (u32 (m.reg r1 + 0)) in
      let same : u32 (m.reg r1 + 0) ≡ a = omega (arith, at_a, small) in
      let clear : IsClear base a =
        ((λ h. omega (arith, h, high)), inr (omega (arith, high, p.report))) in
      store-Agrees base e fits (put r2 v m) s f v (e.memory a) (offsetof-le f)
        (ap (load m.stores m.memory) same ∙ agrees.untouched a clear)
        (put_r2-Agrees base e fits m s v agrees)

  pub select_stack-cases :
      (b : Bool)
      → (bit_and (e.reg lr) 4 == 0) ≡ b
      → Agrees base e fits
          (exec (drop 2 (select_stack base)) (record (step cpsid_i e) { z = b }))
          ((base + 4, captured e exception_id) ∷ (wdt_cr_addr, wdt_rst_key) ∷ [])
  unfolding select_stack exec step captured offsetof
  select_stack-cases true test = record {
    report = refl;
    frame = rw (test) refl;
    live_register = λ x h. ground (arith, h);
    special_register = λ x. refl;
    untouched = λ a (clear, away). rw (p.fresh) (ground (arith, clear, away, fits));
    stored = rw (p.fresh) (
        ap (λ (n : ℕ). (n, bit_and (e.special ipsr) 0x3F) ∷ (wdt_cr_addr, wdt_rst_key) ∷ [])
          (omega (arith, fits)));
  }
  select_stack-cases false test = record {
    report = refl;
    frame = rw (test) refl;
    live_register = λ x h. ground (arith, h);
    special_register = λ x. refl;
    untouched = λ a (clear, away). rw (p.fresh) (ground (arith, clear, away, fits));
    stored = rw (p.fresh) (
        ap (λ (n : ℕ). (n, bit_and (e.special ipsr) 0x3F) ∷ (wdt_cr_addr, wdt_rst_key) ∷ [])
          (omega (arith, fits)));
  }
