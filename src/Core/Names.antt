-- ===== src/Core/Names.antt =====
-- The names of tasks and semaphores that src/SamV71Core/SamV71Core.c and
-- src/SamRH71Core/SamRH71Core.c give out.
use taste_samx_rtems_runtime.Common.Word.{u32}
use taste_samx_rtems_runtime.Common.{
  List, ℕ, ◌+◌, Bool, ◌*◌, ◌∷◌, ◌≤◌, [], length, ◌^◌, ◌≢◌, arith, false, true, ◌<◌, subst, ◌≡◌, ◌⊎◌,
  ap, sym, inl, inr,
}

-- The static variables of `SamV71Core_GenerateNewSemaphoreName` and `SamV71Core_GenerateNewTaskName`.
pub record Names : Type 0 where
  pub semaphore_name : ℕ
  pub task_name : ℕ

-- `rtems_build_name` with the first character c and three zeros.
abbrev pub build_name : ℕ → ℕ
build_name c = c * 2 ^ 24

-- 'C' is 67 and 'D' is 68.
abbrev pub initial_names : Names
initial_names = record { semaphore_name = build_name 67; task_name = build_name 68 }

-- A name of 32 bits, and the next state.
unfoldable pub generate_new_semaphore_name : Names → ℕ × Names
generate_new_semaphore_name s =
    (s.semaphore_name, record s { semaphore_name = u32 (s.semaphore_name + 1) })

unfoldable pub generate_new_task_name : Names → ℕ × Names
generate_new_task_name s = (s.task_name, record s { task_name = u32 (s.task_name + 1) })

-- A sequence of calls, for a semaphore (true) or for a task, and the names that they return.
unfoldable pub generate_all : List Bool → Names → List ℕ
unfolding generate_new_semaphore_name generate_new_task_name
generate_all [] s = []
generate_all (true ∷ rest) s =
    let (name, s1) = generate_new_semaphore_name s in name ∷ generate_all rest s1
generate_all (false ∷ rest) s =
    let (name, s1) = generate_new_task_name s in name ∷ generate_all rest s1

-- The number does not stand in the list.
abbrev pub IsAbsent : ℕ → List ℕ → Type 0
IsAbsent a [] = Unit
IsAbsent a (b ∷ rest) = (a ≢ b) × IsAbsent a rest

-- No number stands twice in the list.
abbrev pub AllDistinct : List ℕ → Type 0
AllDistinct [] = Unit
AllDistinct (a ∷ rest) = IsAbsent a rest × AllDistinct rest

-- Names that are still to come lie at or above the counters, each kind in its range.
abbrev IsAhead : Names → ℕ → Type 0
IsAhead s n =
    (build_name 67 ≤ s.semaphore_name)
    × (s.semaphore_name + n ≤ build_name 68)
    × (build_name 68 ≤ s.task_name)
    × (s.task_name + n ≤ build_name 69)

abbrev next_semaphore : Names → Names
next_semaphore s = record s { semaphore_name = s.semaphore_name + 1 }

abbrev next_task : Names → Names
next_task s = record s { task_name = s.task_name + 1 }

generate_all-semaphore :
    (rest : List Bool) (s : Names)
    → IsAhead s (length (true ∷ rest))
    → generate_all (true ∷ rest) s ≡ s.semaphore_name ∷ generate_all rest (next_semaphore s)
unfolding generate_all
generate_all-semaphore rest s (p, q, r, t) =
    ap (λ n. s.semaphore_name ∷ generate_all rest (record s { semaphore_name = n }))
      (omega (arith, q))

generate_all-task :
    (rest : List Bool) (s : Names)
    → IsAhead s (length (false ∷ rest))
    → generate_all (false ∷ rest) s ≡ s.task_name ∷ generate_all rest (next_task s)
unfolding generate_all
generate_all-task rest s (p, q, r, t) =
    ap (λ n. s.task_name ∷ generate_all rest (record s { task_name = n })) (omega (arith, t))

-- A number between the counters, in neither range of names that are to come.
generate_all-IsAbsent :
    (calls : List Bool) (s : Names) (a : ℕ)
    → IsAhead s (length calls)
    → ((a < s.semaphore_name) ⊎ ((build_name 68 ≤ a) × (a < s.task_name)))
    → IsAbsent a (generate_all calls s)
unfolding generate_all
generate_all-IsAbsent [] s a h outside = tt
generate_all-IsAbsent (true ∷ rest) s a (p, q, r, t) outside =
    subst (IsAbsent a) (sym (generate_all-semaphore rest s (p, q, r, t))) (
      (λ e. ground (arith, outside, p, q, r, t, e)),
      generate_all-IsAbsent rest (next_semaphore s) a
          (omega (arith, p), omega (arith, q), r, omega (arith, t)) (ground (arith, outside)),
    )
generate_all-IsAbsent (false ∷ rest) s a (p, q, r, t) outside =
    subst (IsAbsent a) (sym (generate_all-task rest s (p, q, r, t))) (
      (λ e. ground (arith, outside, p, q, r, t, e)),
      generate_all-IsAbsent rest (next_task s) a
          (p, omega (arith, q), omega (arith, r), omega (arith, t)) (ground (arith, outside)),
    )

generate_all-AllDistinct :
    (calls : List Bool) (s : Names) → IsAhead s (length calls) → AllDistinct (generate_all calls s)
unfolding generate_all
generate_all-AllDistinct [] s h = tt
generate_all-AllDistinct (true ∷ rest) s (p, q, r, t) =
    let after : IsAhead (next_semaphore s) (length rest) =
      (omega (arith, p), omega (arith, q), r, omega (arith, t)) in
    subst AllDistinct (sym (generate_all-semaphore rest s (p, q, r, t))) (
      generate_all-IsAbsent rest (next_semaphore s) s.semaphore_name after (inl (omega arith)),
      generate_all-AllDistinct rest (next_semaphore s) after,
    )
generate_all-AllDistinct (false ∷ rest) s (p, q, r, t) =
    let after : IsAhead (next_task s) (length rest) =
      (p, omega (arith, q), omega (arith, r), omega (arith, t)) in
    subst AllDistinct (sym (generate_all-task rest s (p, q, r, t))) (
      generate_all-IsAbsent rest (next_task s) s.task_name after (inr (r, omega arith)),
      generate_all-AllDistinct rest (next_task s) after,
    )

-- Up to 2^24 names of tasks and semaphores, asked for in any order, are all different.
pub generate_all-distinct :
    (calls : List Bool) → length calls ≤ 2 ^ 24 → AllDistinct (generate_all calls initial_names)
generate_all-distinct calls few =
    generate_all-AllDistinct calls initial_names
      (omega (arith, few), omega (arith, few), omega (arith, few), omega (arith, few))
