-- ===== src/Xdmac/Allocation.antt =====
-- XDMAD_AllocateChannel of src/Xdmac/xdmad.c against the pool of channels.
mod Search
use taste_samx_rtems_runtime.Common.{
  ℕ, ◌≡◌, inl, inr, refl, subst, ◌∙◌, Bool, true, false, not, ◌&&◌, Option, some, ◌∷◌,
  if◌then◌else◌, arith, Bool-cases,
}
use mathlib.Core.List.{head?}
use native.Mathlib.Nat.{zero-add}
use taste_samx_rtems_runtime.Xdmac.Machine.{
  World, Machine, Event, Xdmad, emit, pure, ◌>>◌, obtain_lock, release_lock,
}
use taste_samx_rtems_runtime.Xdmac.Interface.{PeripheralIds}
use taste_samx_rtems_runtime.Xdmac.Driver.{
  claim_free, allocate_xdmac_channel, allocate_channel, alloc_failed,
}
use taste_samx_rtems_runtime.Xdmac.Valid.{IsValid, HasType, Returns, Returns-mono, Returns-bind}
use Search.{checked, claim_free-Taken}
pub use Search.{interface, is_known, is_transferable, given, Busy, Taken, took, full}

-- The last thing that was done to the outside.
abbrev pub last_event : Machine → Option Event
last_event m = head? m.events

-- What an allocation may return and leave, when it is possible and when it is not.
abbrev pub Outcome : PeripheralIds → ℕ → ℕ → ℕ → Bool → Xdmad → Xdmad → ℕ → Type 0
Outcome ids g src dst true d d' ch = Taken ids g src dst 0 d.num_channels d d' ch
Outcome ids g src dst false d d' ch = (ch ≡ alloc_failed) × (d' ≡ d)

module _ (ids : PeripheralIds) (w : World) (g src dst : ℕ) (t : HasType w g) where
  -- The search below the lock.
  locked :
      (m : Machine)
      → IsValid m
      → Returns (allocate_xdmac_channel ids src dst w m) (λ ch m'.
        Outcome ids g src dst (is_transferable ids g src dst) m.driver m'.driver ch
        × (m'.initialized ≡ m.initialized))
  locked m v =
      let (m0, same, kept, e) = checked ids w g src dst t m in
      elim (Bool-cases (is_transferable ids g src dst)) [
        | inl possible ↦
            rw (e, possible)
              (Returns-mono _ _ (claim_free ids m.driver.num_channels 0 src dst w m0)
                (λ ch m' r. (
                  subst (λ d. Taken ids g src dst 0 m.driver.num_channels d m'.driver ch) same
                      (subst (λ k. Taken ids g src dst 0 k m0.driver m'.driver ch)
                        (zero-add m.driver.num_channels) r.0),
                  r.1 ∙ kept,
                ))
                (claim_free-Taken ids w g src dst t m0 m.driver.num_channels 0 (rw same v.size)
                  (omega (arith, v.count))))
        | inr impossible ↦ rw (e, impossible) ((refl, same), kept)
      ]

  -- On a valid driver, and a controller whose type is constant and within the tables of the code:
  -- with the lock obtained and a transfer that the controller supports, an allocation returns the
  -- lowest free channel, which then belongs to the two peripherals with their interfaces, or, if
  -- no channel is free, the failure value and an unchanged driver. Without the lock, or for
  -- another pair, it fails and changes nothing. An obtained lock is released last, on every path.
  pub allocate_channel-Outcome :
      (m : Machine)
      → IsValid m
      → Returns (allocate_channel ids src dst w m) (λ ch m'.
        Outcome ids g src dst
          (w.obtains m.events && is_transferable ids g src dst)
          m.driver
          m'.driver
          ch
        × (m'.initialized ≡ m.initialized)
        × (last_event m'
            ≡ some (if w.obtains m.events then release_lock else obtain_lock (some 0x7FF))))
  unfolding allocate_channel
  allocate_channel-Outcome m v = elim (Bool-cases (w.obtains m.events)) [
    | inl obtained ↦ rw obtained (
        Returns-bind _ _ (allocate_xdmac_channel ids src dst) (λ ch. emit release_lock >> pure ch) w
          (record m { events = obtain_lock (some 0x7FF) ∷ m.events }) (λ ch m' r. (r.0, r.1, refl))
          (locked (record m { events = obtain_lock (some 0x7FF) ∷ m.events })
            (record { size = v.size; count = v.count })))
    | inr refused ↦ rw refused ((refl, refl), refl, refl)
  ]
