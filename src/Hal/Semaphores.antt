-- ===== src/Hal/Semaphores.antt =====
-- The semaphores of src/Hal/Hal.c.
pub mod Full
use taste_samx_rtems_runtime.Common.Word.{u32}
use taste_samx_rtems_runtime.Common.{
  List, ℕ, Bool, Option, if◌then◌else◌, leb, ◌+◌, length, false, ◌∷◌, none, some, set,
}

-- What the code asks of RTEMS: `create` with the name, `obtain` and `release` with the identifier.
pub data SemaphoreEvent : Type 0 where
  create obtain release : ℕ → SemaphoreEvent

-- How RTEMS answers after a history, latest first: the identifier of a new semaphore, `none` if it is
-- not created, and whether a semaphore is obtained or released.
pub record SemaphoreWorld : Type 0 where
  pub created : List SemaphoreEvent → Option ℕ
  pub obtained : List SemaphoreEvent → ℕ → Bool
  pub released : List SemaphoreEvent → ℕ → Bool

-- `created_semaphores_count`, `hal_semaphore_ids` of the length RT_MAX_HAL_SEMAPHORES, the static
-- `name`, and the history.
pub record Semaphores : Type 0 where
  pub created_count : ℕ
  pub ids : List ℕ
  pub name : ℕ
  pub history : List SemaphoreEvent

-- `generate_new_hal_semaphore_name`
unfoldable pub generate_new_hal_semaphore_name : Semaphores → ℕ × Semaphores
generate_new_hal_semaphore_name s = (s.name, record s { name = u32 (s.name + 1) })

module _ (W : SemaphoreWorld) where
  -- `Hal_SemaphoreCreate`
  unfoldable pub semaphore_create : Semaphores → ℕ × Semaphores
  semaphore_create s =
      if leb (length s.ids) s.created_count
      then (0, s)
      else (let (name, s1) = generate_new_hal_semaphore_name s in
          let s2 = record s1 { history = create name ∷ s1.history } in
          elim (W.created s1.history) [
            | none ↦ (0, s2)
            | some id ↦ (
              id,
              record s2 {
                ids = set s2.ids s2.created_count id;
                created_count = s2.created_count + 1;
              },
            )
          ])

  -- `Hal_SemaphoreObtain`
  unfoldable pub semaphore_obtain : ℕ → Semaphores → Bool × Semaphores
  semaphore_obtain id s =
      if leb (length s.ids) s.created_count
      then (false, s)
      else (W.obtained s.history id, record s { history = obtain id ∷ s.history })

  -- `Hal_SemaphoreRelease`
  unfoldable pub semaphore_release : ℕ → Semaphores → Bool × Semaphores
  semaphore_release id s =
      if leb (length s.ids) s.created_count
      then (false, s)
      else (W.released s.history id, record s { history = release id ∷ s.history })
