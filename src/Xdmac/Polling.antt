-- ===== src/Xdmac/Polling.antt =====
-- XDMAD_IsTransferDone of src/Xdmac/xdmad.c.
use taste_samx_rtems_runtime.Common.{
  ℕ, ◌<◌, ◌≤◌, ◌≡◌, inl, inr, refl, Bool, true, false, not, ◌&&◌, ◌==◌, some, get_elem?, arith,
  Bool-cases,
}
use taste_samx_rtems_runtime.Xdmac.Machine.{
  World, Machine, XdmadRc, XdmadState, XdmadChannel, ◌>>◌, pure,
}
use taste_samx_rtems_runtime.Xdmac.Driver.{channel_index}
use taste_samx_rtems_runtime.Xdmac.Transfer.{when}
use taste_samx_rtems_runtime.Xdmac.Handler.{handler, is_transfer_done, done_by_state}
use taste_samx_rtems_runtime.Xdmac.Interrupts.{Handled, handler-Handled}
use taste_samx_rtems_runtime.Xdmac.Valid.{IsPassive, IsValid, Returns, Returns-bind}

-- The reply for a channel in a state.
abbrev pub done_reply : XdmadState → XdmadRc
done_reply XdmadState.free = XdmadRc.error
done_reply XdmadState.allocated = XdmadRc.ok
done_reply XdmadState.done = XdmadRc.ok
done_reply _ = XdmadRc.busy

abbrev pub is_busy : XdmadState → Bool
is_busy XdmadState.free = false
is_busy XdmadState.allocated = false
is_busy XdmadState.done = false
is_busy _ = true

-- The driver after the question: serviced as by an interrupt, or as it was.
abbrev pub Polled : World → Machine → Bool → Machine → Type 0
Polled w m true m' = Handled w m m'
Polled w m false m' = (m'.driver ≡ m.driver) × (m'.events ≡ m.events)

module _ (w : World) (m : Machine) (v : IsValid m) (passive : IsPassive w) where
  asking :
      Returns ((when (not (m.driver.polling_mode == 0)) handler >> pure XdmadRc.busy) w m) (λ rc m'.
        (rc ≡ XdmadRc.busy)
        × Polled w m (not (m.driver.polling_mode == 0)) m'
        × (m'.initialized ≡ m.initialized))
  asking = elim (Bool-cases (m.driver.polling_mode == 0)) [
    | inl interrupts ↦ rw interrupts (refl, (refl, refl), refl)
    | inr polls ↦ rw polls (
        Returns-bind _ _ handler (λ _. pure XdmadRc.busy) w m (λ _ m' r. (refl, r.0, r.1))
          (handler-Handled w m v passive))
  ]

  answer :
      (s : XdmadState)
      → Returns (done_by_state s w m) (λ rc m'.
        (rc ≡ done_reply s)
        × Polled w m (is_busy s && not (m.driver.polling_mode == 0)) m'
        × (m'.initialized ≡ m.initialized))
  answer XdmadState.free = (refl, (refl, refl), refl)
  answer XdmadState.allocated = (refl, (refl, refl), refl)
  answer XdmadState.done = (refl, (refl, refl), refl)
  answer XdmadState.start = asking
  answer XdmadState.in_xfr = asking
  answer XdmadState.halted = asking

  is_transfer_done-eq :
      (dw : ℕ) (c : XdmadChannel)
      → channel_index dw < m.driver.num_channels
      → get_elem? m.driver.channels (channel_index dw) ≡ some c
      → is_transfer_done dw w m ≡ done_by_state c.state w m
  unfolding is_transfer_done
  is_transfer_done-eq dw c lt e = ground arith

  -- On a valid driver whose callbacks return and do not call it, a client that asks for the end of a
  -- transfer on a known channel gets the reply for the state before the question. If the driver polls
  -- and the channel is started, in transfer or halted, the global status has been read and all that
  -- the handler promises of an interrupt has been done; otherwise the driver is kept and nothing
  -- outside has been touched.
  pub is_transfer_done-Polled :
      (dw : ℕ) (c : XdmadChannel)
      → channel_index dw < m.driver.num_channels
      → get_elem? m.driver.channels (channel_index dw) ≡ some c
      → Returns (is_transfer_done dw w m) (λ rc m'.
        (rc ≡ done_reply c.state)
        × Polled w m (is_busy c.state && not (m.driver.polling_mode == 0)) m'
        × (m'.initialized ≡ m.initialized))
  is_transfer_done-Polled dw c lt e = rw (is_transfer_done-eq dw c lt e) (answer c.state)

  pub is_transfer_done-out :
      (dw : ℕ)
      → m.driver.num_channels ≤ channel_index dw
      → is_transfer_done dw w m ≡ some (XdmadRc.error, m)
  unfolding is_transfer_done
  is_transfer_done-out dw h = ground arith
