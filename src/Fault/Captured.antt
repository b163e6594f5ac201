-- ===== src/Fault/Captured.antt =====
-- What Fault_Handler stores.
use mathlib.Core.List.{append_assoc}
use taste_samx_rtems_runtime.Common.Word.{u32}
use taste_samx_rtems_runtime.Fault.Report.{Field, offsetof}
use taste_samx_rtems_runtime.Fault.Handler.{wdt_cr_addr, live, moved, stacked}
use taste_samx_rtems_runtime.Common.{
  ℕ, if◌then◌else◌, ◌+◌, ◌≢◌, bit_and, ◌≤◌, ◌<◌, ◌^◌, List, ◌==◌, ◌⊎◌, ◌≡◌, ◌++◌, ◌∷◌, arith, subst,
  [], sym, ap, refl, ◌∙◌, ap₂,
}
use taste_samx_rtems_runtime.Fault.{
  Machine, Special, primask, lr, Instr, load, msp, r0, exec, psp, r3, Reg, number, put, step, r1,
  r2,
}

-- Bit 2 of lr tells which stack holds the frame.
abbrev pub frame_pointer : Machine → ℕ
frame_pointer e = if bit_and (e.reg lr) 4 == 0 then e.special msp else e.special psp

-- The special registers while the handler runs: it has set PRIMASK.
abbrev pub masked : Machine → Special → ℕ
masked e s = elim s [ primask ↦ 1 | other ↦ e.special other ]

-- An address that the handler does not write.
abbrev pub IsClear : ℕ → ℕ → Type 0
IsClear base a = (a ≢ wdt_cr_addr) × ((a < base) ⊎ (base + 116 ≤ a))

exec-append : (c d : List Instr) (m : Machine) → exec (c ++ d) m ≡ exec d (exec c m)
unfolding exec
exec-append [] d m = refl
exec-append (i ∷ c) d m = exec-append c d (step i m)

module _ (base : ℕ) (e : Machine) (fits : base + 116 ≤ 2 ^ 32) where
  -- The machine m of the handler, which was entered in e, after the stores s.
  pub record Agrees (m : Machine) (s : List (ℕ × ℕ)) : Type 0 where
    pub report : m.reg r0 ≡ base
    pub frame : m.reg r3 ≡ frame_pointer e
    pub live_register : (x : Reg) → 4 ≤ number x → m.reg x ≡ e.reg x
    pub special_register : (x : Special) → m.special x ≡ masked e x
    pub untouched : (a : ℕ) → IsClear base a → load m.stores m.memory a ≡ e.memory a
    pub stored : m.stores ≡ s

  abbrev at : Field → ℕ
  at f = base + offsetof f

  -- Code that leaves an agreeing machine, with more stores.
  pub record Saves (code : List Instr) (w : List (ℕ × ℕ)) : Type 0 where
    pub run : (m : Machine) (s : List (ℕ × ℕ)) → Agrees m s → Agrees (exec code m) (w ++ s)

  untouched-cons :
      (s : List (ℕ × ℕ)) (memory : ℕ → ℕ) (o v a : ℕ)
      → o + 4 ≤ 116
      → IsClear base a
      → load ((u32 (base + o), v) ∷ s) memory a ≡ load s memory a
  untouched-cons s memory o v a inside (clear, away) = ground (arith, inside, away, fits)

  -- A word that is stored to the report.
  pub store-Agrees :
      (m : Machine) (s : List (ℕ × ℕ)) (f : Field) (v w : ℕ)
      → offsetof f ≤ 112
      → v ≡ w
      → Agrees m s
      → Agrees (record m { stores = (u32 (m.reg r0 + offsetof f), v) ∷ m.stores }) ((at f, w) ∷ s)
  store-Agrees m s f v w inside value a = record {
    report = a.report;
    frame = a.frame;
    live_register = a.live_register;
    special_register = a.special_register;
    untouched = λ x clear.
        subst (λ b. load ((u32 (b + offsetof f), v) ∷ m.stores) m.memory x ≡ e.memory x)
          (sym a.report)
          (untouched-cons m.stores m.memory (offsetof f) v x (omega (arith, inside)) clear
            ∙ a.untouched x clear);
    stored = ap₂ ◌∷◌ (ap₂ (λ (x y : ℕ). (x, y)) (address a.report) value) a.stored;
  }
    where
      address : m.reg r0 ≡ base → u32 (m.reg r0 + offsetof f) ≡ base + offsetof f
      address h = omega (arith, h, fits, inside)

  -- r1 and r2 are free.
  pub put_r1-Agrees : (m : Machine) (s : List (ℕ × ℕ)) (v : ℕ) → Agrees m s → Agrees (put r1 v m) s
  put_r1-Agrees m s v a = record {
    report = a.report;
    frame = a.frame;
    live_register = λ x h. ground (arith, h, a.live_register x h);
    special_register = a.special_register;
    untouched = a.untouched;
    stored = a.stored;
  }

  pub put_r2-Agrees : (m : Machine) (s : List (ℕ × ℕ)) (v : ℕ) → Agrees m s → Agrees (put r2 v m) s
  put_r2-Agrees m s v a = record {
    report = a.report;
    frame = a.frame;
    live_register = λ x h. ground (arith, h, a.live_register x h);
    special_register = a.special_register;
    untouched = a.untouched;
    stored = a.stored;
  }

  pub Saves-append :
      {c d : List Instr} {w x : List (ℕ × ℕ)} → Saves c w → Saves d x → Saves (c ++ d) (x ++ w)
  Saves-append {c} {d} {w} {x} p q = record {
    run = λ m s a.
        subst (λ n. Agrees n ((x ++ w) ++ s)) (sym (exec-append c d m))
          (subst (Agrees (exec d (exec c m))) (sym (append_assoc x w s))
            (q.run (exec c m) (w ++ s) (p.run m s a)));
  }

  pub live-Saves :
      (r : Reg) (f : Field)
      → 4 ≤ number r
      → offsetof f ≤ 112
      → Saves (live r f) ((at f, e.reg r) ∷ [])
  unfolding exec step
  live-Saves r f high inside = record {
    run = λ m s a. store-Agrees m s f (m.reg r) (e.reg r) inside (a.live_register r high) a;
  }

  pub moved-Saves :
      (x : Special) (f : Field) → offsetof f ≤ 112 → Saves (moved x f) ((at f, masked e x) ∷ [])
  unfolding exec step
  moved-Saves x f inside = record {
    run = λ m s a.
        store-Agrees (put r1 (m.special x) m) s f (m.special x) (masked e x) inside
          (a.special_register x) (put_r1-Agrees m s (m.special x) a);
  }

  pub stacked-Saves :
      (k : ℕ) (f : Field)
      → offsetof f ≤ 112
      → frame_pointer e + k < 2 ^ 32
      → IsClear base (frame_pointer e + k)
      → Saves (stacked k f) ((at f, e.memory (frame_pointer e + k)) ∷ [])
  unfolding exec step
  stacked-Saves k f inside small clear = record {
    run = λ m s a.
        let v : ℕ = load m.stores m.memory (u32 (m.reg r3 + k)) in
        let same : u32 (m.reg r3 + k) ≡ frame_pointer e + k = omega (arith, a.frame, small) in
        store-Agrees (put r1 v m) s f v (e.memory (frame_pointer e + k)) inside
          (ap (load m.stores m.memory) same ∙ a.untouched (frame_pointer e + k) clear)
          (put_r1-Agrees m s v a);
  }
