-- ===== src/Monitor/Stack.antt =====
-- The stack usage of src/Monitor/Monitor.c, on a stack that grows down.
pub mod Mark
pub mod Visit
use taste_samx_rtems_runtime.Common.Word.{sub32, u32}
use taste_samx_rtems_runtime.Common.{
  Option, ℕ, Bool, List, none, false, get_elem?, suc, ◌+◌, if◌then◌else◌, some, ltb, not, ◌==◌,
  true, zero,
}

abbrev pub stack_byte_pattern : ℕ
stack_byte_pattern = 0xA5A5A5A5

-- The loop of `find_high_water_mark` from `pointer` up to `end`, over the words of the memory. The
-- first result is whether the fuel was enough; a pointer is 32 bits wide.
unfoldable pub find_mark : (ℕ → ℕ) → ℕ → ℕ → ℕ → Option (Option ℕ)
find_mark memory zero pointer end = none
find_mark memory (suc fuel) pointer end =
    let rest = find_mark memory fuel (u32 (pointer + 4)) end in
    if ltb pointer end
    then if memory pointer == stack_byte_pattern then rest else some (some pointer)
    else some none

-- `find_high_water_mark`. A null pointer is `none`.
unfoldable pub find_high_water_mark : (ℕ → ℕ) → ℕ → ℕ → ℕ → Option (Option ℕ)
find_high_water_mark memory fuel stack_start stack_size =
    find_mark memory fuel stack_start (u32 (stack_start + stack_size))

-- `calculate_used_stack`
unfoldable pub calculate_used_stack : ℕ → ℕ → ℕ → ℕ
calculate_used_stack stack_start stack_size high_water_mark =
    sub32 (u32 (stack_start + stack_size)) high_water_mark

-- What the visitor reads of `Thread_Control`. A null area is `none`.
pub record Thread : Type 0 where
  pub id : ℕ
  pub area : Option ℕ
  pub size : ℕ

-- `Monitor_MaximumStackUsageData`
pub record StackUsageData : Type 0 where
  pub interface : ℕ
  pub maximum_stack_usage : ℕ
  pub is_found : Bool

-- `thread_stack_usage_visitor`, with the identifiers of `threads_info`. `none` is a missing row or
-- too little fuel.
unfoldable pub thread_stack_usage_visitor :
    (ℕ → ℕ) → ℕ → List ℕ → Thread → StackUsageData → Option (Bool × StackUsageData)
thread_stack_usage_visitor memory fuel ids t d = elim (get_elem? ids d.interface) [
  | none ↦ none
  | some id ↦ if not (id == t.id) then some (false, d) else elim t.area [
    | none ↦ some (true, d)
    | some start ↦ elim (find_high_water_mark memory fuel start t.size) [
      | none ↦ none
      | some none ↦ some (true, record d { is_found = true })
      | some (some mark) ↦ some (
        true,
        record d { is_found = true; maximum_stack_usage = calculate_used_stack start t.size mark },
      )
    ]
  ]
]

-- The pattern of the `int32_t` -1.
abbrev pub minus_one : ℕ
minus_one = 0xFFFFFFFF

-- `Monitor_GetMaximumStackUsage` where it is built with RT_MEASURE_STACK. `iterate` is
-- `rtems_task_iterate`, and the result is the pattern of an `int32_t`.
unfoldable pub get_maximum_stack_usage :
    ((Thread → StackUsageData → Option (Bool × StackUsageData))
      → StackUsageData
      → Option StackUsageData)
    → (ℕ → ℕ)
    → ℕ
    → List ℕ
    → ℕ
    → Option ℕ
get_maximum_stack_usage iterate memory fuel ids interface =
    elim (iterate (thread_stack_usage_visitor memory fuel ids)
      (record { interface = interface; maximum_stack_usage = 0; is_found = false })) [
        | none ↦ none
        | some d ↦ some (if d.is_found then u32 d.maximum_stack_usage else minus_one)
      ]
