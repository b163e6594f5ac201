-- ===== src/Monitor/Stack/Mark.antt =====
-- The search for the high-water mark.
use taste_samx_rtems_runtime.Common.Word.{u32}
use taste_samx_rtems_runtime.Monitor.Stack.{find_mark, stack_byte_pattern, find_high_water_mark}
use taste_samx_rtems_runtime.Common.{
  Option, ℕ, none, some, ◌<◌, ◌≡◌, ◌+◌, suc, ◌*◌, subst, ◌^◌, ◌≢◌, arith, zero, Bool-cases,
  if◌then◌else◌, ◌==◌, inl, lt→ltb, inr, refl,
}

-- The words from `pointer` on, `n` of them, hold the pattern.
abbrev pub Untouched : (ℕ → ℕ) → ℕ → ℕ → Type 0
Untouched memory pointer n = (k : ℕ) → k < n → memory (pointer + 4 * k) ≡ stack_byte_pattern

-- What the search finds in `n` words from `pointer` on: nothing if they all hold the pattern, or the
-- first that does not.
pub data Searched (memory : ℕ → ℕ) (pointer n : ℕ) : Option ℕ → Type 0 where
  unused : Untouched memory pointer n → Searched memory pointer n none
  used :
      (k : ℕ)
      → k < n
      → Untouched memory pointer k
      → memory (pointer + 4 * k) ≢ stack_byte_pattern
      → Searched memory pointer n (some (pointer + 4 * k))

Untouched-suc :
    (memory : ℕ → ℕ) (pointer n : ℕ)
    → memory pointer ≡ stack_byte_pattern
    → Untouched memory (pointer + 4) n
    → Untouched memory pointer (suc n)
Untouched-suc memory pointer n e u zero p =
    subst (λ a. memory a ≡ stack_byte_pattern) (omega arith) e
Untouched-suc memory pointer n e u (suc k) p =
    subst (λ a. memory a ≡ stack_byte_pattern) (omega arith) (u k (omega arith))

Searched-suc :
    (memory : ℕ → ℕ) (pointer n : ℕ) {o : Option ℕ}
    → memory pointer ≡ stack_byte_pattern
    → Searched memory (pointer + 4) n o
    → Searched memory pointer (suc n) o
Searched-suc memory pointer n e (unused u) = unused (Untouched-suc memory pointer n e u)
Searched-suc memory pointer n e (used k p u ne) =
    subst (λ a. Searched memory pointer (suc n) (some a)) (omega arith)
      (used (suc k) (omega arith) (Untouched-suc memory pointer k e u)
        (subst (λ a. memory a ≢ stack_byte_pattern) (omega arith) ne))

-- The search returned, with a result of which `P` holds.
abbrev pub Ends : {A : Type 0} → Option A → (A → Type 0) → Type 0
Ends none P = ⊥
Ends (some a) P = P a

pub Ends-mono :
    {A : Type 0} {P Q : A → Type 0} → ((a : A) → P a → Q a) → (o : Option A) → Ends o P → Ends o Q
Ends-mono f none h = h
Ends-mono f (some a) h = f a h

find_mark-end :
    (memory : ℕ → ℕ) (fuel pointer : ℕ)
    → find_mark memory (suc fuel) pointer (pointer + 4 * 0) ≡ some none
unfolding find_mark
find_mark-end memory fuel pointer = ground arith

find_mark-suc :
    (memory : ℕ → ℕ) (fuel n pointer : ℕ)
    → pointer + 4 * suc n < 2 ^ 32
    → find_mark memory (suc fuel) pointer (pointer + 4 * suc n) ≡ (
        if memory pointer == stack_byte_pattern
        then find_mark memory fuel (pointer + 4) (pointer + 4 + 4 * n)
        else some (some pointer))
unfolding find_mark
find_mark-suc memory fuel n pointer small =
    let step : u32 (pointer + 4) ≡ pointer + 4 = omega arith in
    let end : pointer + 4 + 4 * n ≡ pointer + 4 * suc n = omega arith in
    let inside = lt→ltb pointer (pointer + 4 * suc n) (omega arith) in rw (step, end, inside) refl

find_mark-Searched :
    (memory : ℕ → ℕ) (fuel n pointer : ℕ)
    → n < fuel
    → pointer + 4 * n < 2 ^ 32
    → Ends (find_mark memory fuel pointer (pointer + 4 * n)) (Searched memory pointer n)
unfolding find_mark
find_mark-Searched memory zero n pointer lt small = absurd (omega arith)
find_mark-Searched memory (suc fuel) zero pointer lt small =
    rw (find_mark-end memory fuel pointer) (unused (λ k p. absurd (omega arith)))
find_mark-Searched memory (suc fuel) (suc n) pointer lt small =
    let rest = find_mark-Searched memory fuel n (pointer + 4) (omega arith) (omega arith) in
    elim (Bool-cases (memory pointer == stack_byte_pattern)) [
      | inl untouched ↦
          rw (find_mark-suc memory fuel n pointer small, untouched)
            (Ends-mono (λ o r. Searched-suc memory pointer n (ground arith) r)
              (find_mark memory fuel (pointer + 4) (pointer + 4 + 4 * n)) rest)
      | inr touched ↦
          let here : pointer ≡ pointer + 4 * 0 = omega arith in
          rw (find_mark-suc memory fuel n pointer small, touched)
            (subst (λ a. Searched memory pointer (suc n) (some a)) (omega arith)
              (used 0 (omega arith) (λ k p. absurd (omega arith))
                (subst (λ a. memory a ≢ stack_byte_pattern) here (ground arith))))
    ]

-- With more fuel than words, the search of a stack below the end of the memory returns nothing if
-- every word holds the pattern, or else the address of the lowest word that does not.
pub find_high_water_mark-Searched :
    (memory : ℕ → ℕ) (fuel stack_start n : ℕ)
    → n < fuel
    → stack_start + 4 * n < 2 ^ 32
    → Ends (find_high_water_mark memory fuel stack_start (4 * n)) (Searched memory stack_start n)
unfolding find_high_water_mark
find_high_water_mark-Searched memory fuel stack_start n lt small =
    let end : u32 (stack_start + 4 * n) ≡ stack_start + 4 * n = omega arith in
    rw end (find_mark-Searched memory fuel n stack_start lt small)
