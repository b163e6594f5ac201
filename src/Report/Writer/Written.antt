-- ===== src/Report/Writer/Written.antt =====
-- What a generated death report holds.
use native.Mathlib.Decide.{ℕ_discrete}
use taste_samx_rtems_runtime.Report.Crc.Appended.{calculate_crc-appended}
use taste_samx_rtems_runtime.Report.Crc.{calculate_crc}
use taste_samx_rtems_runtime.Common.Word.{sub32, u32}
use taste_samx_rtems_runtime.Report.Writer.{
  copy_stack, generate_death_report, DeathReport, save_stack, calculate_report_crc, payload,
}
use taste_samx_rtems_runtime.Common.{
  ℕ, List, ◌+◌, ◌≡◌, ◌≤◌, length, min, ◌<◌, arith, get_elem?, true, if◌then◌else◌, some, suc, ltb,
  set, ◌++◌, ◌⊎◌, length-set, ◌/◌, ◌^◌, subst, ◌∷◌, inl, ◌%◌, [], ◌∙◌, get_elem?-set_self, refl,
  inr, get_elem?-set_ne, zero,
}

-- The copy up to byte `i + n`: what it writes, what it keeps, and the length.
pub record Copied (memory : ℕ → ℕ) (pointer i n : ℕ) (old new : List ℕ) : Type 0 where
  pub inside : (k : ℕ) → i ≤ k → k < i + n → get_elem? new k ≡ some (memory (u32 (pointer + k)))
  pub outside : (k : ℕ) → (k < i) ⊎ (i + n ≤ k) → get_elem? new k ≡ get_elem? old k
  pub size : length new ≡ length old

copy_stack-Copied :
    (memory : ℕ → ℕ) (pointer n i : ℕ) (old : List ℕ)
    → i + n ≤ length old
    → Copied memory pointer i n old (copy_stack memory pointer n i old)
unfolding copy_stack
copy_stack-Copied memory pointer zero i old room = record {
  inside = λ k p q. absurd (omega arith);
  outside = λ k o. refl;
  size = refl;
}
copy_stack-Copied memory pointer (suc n) i old room =
    let byte = memory (u32 (pointer + i)) in
    let next : List ℕ = set old i byte in
    let rest =
      copy_stack-Copied memory pointer n (i + 1) next (rw (length-set old i byte) (omega arith)) in
    record {
      inside = λ k p q. elim (ℕ_discrete i k) [
        | yes same ↦
            subst
              (λ j.
                get_elem? (copy_stack memory pointer n (i + 1) next) j
                ≡ some (memory (u32 (pointer + j))))
              same
              (rest.outside i (inl (omega arith)) ∙ get_elem?-set_self old i byte (omega arith))
        | no other ↦ rest.inside k (omega arith) (omega arith)
      ];
      outside = λ k o.
          rest.outside k
            (elim o [ inl l ↦ inl (omega (arith, l)) | inr h ↦ inr (omega (arith, h)) ])
          ∙ get_elem?-set_ne old byte
              (elim o [ inl l ↦ (λ e. omega (arith, l, e)) | inr h ↦ (λ e. omega (arith, h, e)) ]);
      size = rest.size ∙ length-set old i byte;
    }

-- A report that was written from another: the bytes from the stack pointer up to `stack_end`, at most
-- 512 of them, the rest kept, not seen, with the checksum of all that stands behind it.
pub record Written (memory : ℕ → ℕ) (stack_end : ℕ) (old new : DeathReport) : Type 0 where
  pub count : new.stack_trace_length ≡ min (sub32 stack_end old.stack_trace_pointer) 512
  pub stack :
      Copied memory old.stack_trace_pointer 0 new.stack_trace_length old.stack_trace new.stack_trace
  pub pointer : new.stack_trace_pointer ≡ old.stack_trace_pointer
  pub context : new.context ≡ old.context
  pub reserved : new.reserved ≡ old.reserved
  pub unseen : new.was_seen ≡ 0
  pub padding : new.padding ≡ 0
  pub check : calculate_crc (payload new ++ (new.checksum / 2 ^ 8 ∷ new.checksum % 2 ^ 8 ∷ [])) ≡ 0

-- On a report with room for 512 bytes of stack the writer returns true. It copies the bytes from the
-- stack pointer up to the address that the variable `bsp_section_rtemsstack_end` holds, here any
-- number, modulo 2 ^ 32 and at most 512, keeps the context, marks the report as not seen, and stores the checksum with which the report checks to 0.
pub generate_death_report-Written :
    (memory : ℕ → ℕ) (stack_end : ℕ) (r : DeathReport)
    → length r.stack_trace ≡ 512
    → (r' : DeathReport) × (generate_death_report memory stack_end r ≡ (true, r'))
      × Written memory stack_end r r'
unfolding generate_death_report save_stack calculate_report_crc
generate_death_report-Written memory stack_end r room =
    let count : ℕ =
      if ltb (sub32 stack_end r.stack_trace_pointer) 512
      then sub32 stack_end r.stack_trace_pointer
      else 512 in
    let capped : count ≡ min (sub32 stack_end r.stack_trace_pointer) 512 =
      cap (sub32 stack_end r.stack_trace_pointer) in
    (
      (generate_death_report memory stack_end r).1,
      refl,
      record {
        count = capped;
        stack =
            copy_stack-Copied memory r.stack_trace_pointer count 0 r.stack_trace
              (omega (arith, capped, room));
        pointer = refl;
        context = refl;
        reserved = refl;
        unseen = refl;
        padding = refl;
        check = calculate_crc-appended (payload (generate_death_report memory stack_end r).1);
      },
    )
  where
    cap : (n : ℕ) → (if ltb n 512 then n else 512) ≡ min n 512
    cap n = ground arith
