-- ===== src/Hal/Semaphores/Full.antt =====
-- The semaphores over a run of creations.
use taste_samx_rtems_runtime.Common.Word.{u32}
use taste_samx_rtems_runtime.Common.{
  List, ℕ, suc, ◌+◌, ◌≡◌, set, some, zero, ◌<◌, ◌≤◌, length, ◌∷◌, arith, if◌then◌else◌, length-set,
  ltb, false, ◌∙◌, leb, refl, not, Bool-cases, inl, inr,
}
use taste_samx_rtems_runtime.Hal.Semaphores.{
  SemaphoreEvent, SemaphoreWorld, Semaphores, create, obtain, release, semaphore_create,
  semaphore_obtain, semaphore_release, generate_new_hal_semaphore_name,
}

module _ (W : SemaphoreWorld) where
  -- As many creations.
  abbrev pub create_all : ℕ → Semaphores → Semaphores
  create_all zero s = s
  create_all (suc n) s = (semaphore_create W (create_all n s)).1

  abbrev taken : Semaphores → ℕ → Semaphores
  taken s id = record s {
    created_count = s.created_count + 1;
    ids = set s.ids s.created_count id;
    name = u32 (s.name + 1);
    history = create s.name ∷ s.history;
  }

  semaphore_create-taken :
      (s : Semaphores) (id : ℕ)
      → W.created s.history ≡ some id
      → s.created_count < length s.ids
      → semaphore_create W s ≡ (id, taken s id)
  unfolding semaphore_create generate_new_hal_semaphore_name
  semaphore_create-taken s id e lt = ground (arith, e)

  -- If RTEMS has a semaphore each time, every creation that finds room is counted.
  create_all-count :
      (id : List SemaphoreEvent → ℕ)
      → ((es : List SemaphoreEvent) → W.created es ≡ some (id es))
      → (n : ℕ) (s : Semaphores) → s.created_count + n ≤ length s.ids
      → ((create_all n s).created_count ≡ s.created_count + n)
        × (length (create_all n s).ids ≡ length s.ids)
  create_all-count id has zero s room = (omega arith, refl)
  create_all-count id has (suc n) s room =
      let before : Semaphores = create_all n s in
      let (count, size) = create_all-count id has n s (omega arith) in
      rw
        (
          semaphore_create-taken before (id before.history) (has before.history)
              (omega (arith, count, size)),
          create_all,
        )
        (
          omega (arith, count),
          length-set before.ids before.created_count (id before.history) ∙ size,
        )

  -- With an RTEMS that always has a semaphore, after `n` creations from the start a semaphore is
  -- obtained or released as RTEMS answers only while `n` is less than the size of the array. Once the
  -- array is full, both fail for every semaphore, and RTEMS is not asked.
  pub create_all-obtain :
      (id : List SemaphoreEvent → ℕ)
      → ((es : List SemaphoreEvent) → W.created es ≡ some (id es))
      → (n : ℕ) (s : Semaphores) → s.created_count ≡ 0
      → n ≤ length s.ids
      → (semaphore : ℕ)
      → (let after = create_all n s in
          (semaphore_obtain W semaphore after ≡ (
            if ltb n (length s.ids)
            then (
              W.obtained after.history semaphore,
              record after { history = obtain semaphore ∷ after.history },
            )
            else (false, after)))
          × (semaphore_release W semaphore after ≡ (
              if ltb n (length s.ids)
              then (
                W.released after.history semaphore,
                record after { history = release semaphore ∷ after.history },
              )
              else (false, after))))
  unfolding semaphore_obtain semaphore_release
  create_all-obtain id has n s start room semaphore =
      let (count, size) = create_all-count id has n s (omega (arith, start)) in
      let test : leb (length (create_all n s).ids) (create_all n s).created_count
          ≡ not (ltb n (length s.ids)) =
        full (create_all n s) n s count size start in
      elim (Bool-cases (ltb n (length s.ids))) [
        | inl space ↦ rw (test, space) (refl, refl)
        | inr no_space ↦ rw (test, no_space) (refl, refl)
      ]
    where
      full :
          (after : Semaphores) (n : ℕ) (s : Semaphores)
          → after.created_count ≡ s.created_count + n
          → length after.ids ≡ length s.ids
          → s.created_count ≡ 0
          → leb (length after.ids) after.created_count ≡ not (ltb n (length s.ids))
      full after n s count size start = ground arith
