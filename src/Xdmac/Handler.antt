-- ===== src/Xdmac/Handler.antt =====
-- The interrupt handler of src/Xdmac/xdmad.c, and the polling that calls it.
-- `XDMAD_Handler_in` and `XDMAD_Handler_out`, counters that are only written, are left out.
use taste_samx_rtems_runtime.Common.{
  ℕ, zero, suc, ◌+◌, Bool, true, false, not, none, some, ◌==◌, bit_and, if◌then◌else◌,
}
use taste_samx_rtems_runtime.Common.Word.{any_bit}
use taste_samx_rtems_runtime.Xdmac.Machine.{
  M, pure, ◌>>=◌, ◌>>◌, emit, call, enter_callback, XdmadRc, XdmadState, XdmadChannel, get_driver,
  get_channel,
}
use taste_samx_rtems_runtime.Xdmac.Registers.{
  bit, get_channel_isr, get_mask_channel_isr, get_channel_it_mask, get_gisr, get_global_ch_status,
  cis_bis, cis_lis, cis_dis, cim_lim,
}
use taste_samx_rtems_runtime.Xdmac.Driver.{is_free, set_state, if_channel, channel_index}
use taste_samx_rtems_runtime.Xdmac.Transfer.{when}

-- `XDMAD_HandleChannelInterruptStatus`. The tests that only trace are left out.
unfoldable pub handle_channel_interrupt_status : ℕ → M Bool
handle_channel_interrupt_status i = do
  status ← get_mask_channel_isr i
  block_end ←
      if any_bit status cis_bis
      then (do mask ← get_channel_it_mask i; pure (bit_and mask cim_lim == 0))
      else pure false
  when block_end (set_state i XdmadState.done)
  when (any_bit status cis_lis) (set_state i XdmadState.done)
  when (any_bit status cis_dis) (set_state i XdmadState.done)
  pure (if any_bit status cis_dis then true else if any_bit status cis_lis then true else block_end)

-- `XDMAD_HandleChannelInterrupts`
unfoldable pub handle_channel_interrupts : ℕ → ℕ → M Bool
handle_channel_interrupts global_ch_status i =
    if bit_and global_ch_status (bit i) == 0
    then handle_channel_interrupt_status i
    else (do status ← get_channel_isr i; pure (any_bit status cis_bis))

abbrev pub run_callback : ℕ → XdmadChannel → M (Unit {0})
run_callback i c = elim c.callback [
  | none ↦ pure tt
  | some f ↦ emit (call f i c.arg) >> enter_callback f i c.arg
]

-- The end of `XDMAD_HandleChannel`.
unfoldable pub execute_callback : ℕ → Bool → M Bool
execute_callback i exec = do c ← get_channel i; when exec (run_callback i c); pure true

-- `XDMAD_HandleChannel`
unfoldable pub handle_channel : ℕ → ℕ → ℕ → M Bool
handle_channel global_int_status global_ch_status i =
    if bit_and global_int_status (bit i) == 0 then pure true else (do
      c ← get_channel i
      if is_free c.state
          then pure false
          else handle_channel_interrupts global_ch_status i >>= execute_callback i)

-- The loop of `XDMAD_Handler`, with the rounds that are left.
unfoldable pub handle_channels : ℕ → ℕ → ℕ → ℕ → M (Unit {0})
handle_channels zero i global_int_status global_ch_status = pure tt
handle_channels (suc rounds) i global_int_status global_ch_status = do
  result ← handle_channel global_int_status global_ch_status i
  let rest = handle_channels rounds (i + 1) global_int_status global_ch_status
  if result then rest else pure tt

-- `XDMAD_Handler`
unfoldable pub handler : M (Unit {0})
handler = do
  global_int_status ← get_gisr
  if bit_and global_int_status 0xFFFFFF == 0 then pure tt else (do
    global_ch_status ← get_global_ch_status
    d ← get_driver
    handle_channels d.num_channels 0 global_int_status global_ch_status)

abbrev pub done_by_state : XdmadState → M XdmadRc
done_by_state XdmadState.allocated = pure XdmadRc.ok
done_by_state XdmadState.free = pure XdmadRc.error
done_by_state XdmadState.done = pure XdmadRc.ok
done_by_state _ = do d ← get_driver; when (not (d.polling_mode == 0)) handler; pure XdmadRc.busy

-- `XDMAD_IsTransferDone`
unfoldable pub is_transfer_done : ℕ → M XdmadRc
is_transfer_done dw_channel =
    let i = channel_index dw_channel in if_channel i (do c ← get_channel i; done_by_state c.state)
