-- ===== src/Xdmac/Transfer.antt =====
-- The operations of src/Xdmac/xdmad.c that prepare, configure, start and stop a transfer.
use taste_samx_rtems_runtime.Common.{ℕ, Bool, ◌||◌, some, ◌∷◌, ◌==◌, bit_and, if◌then◌else◌}
use taste_samx_rtems_runtime.Common.Word.{u8}
use taste_samx_rtems_runtime.Xdmac.Machine.{
  M, pure, ◌>>=◌, ◌>>◌, emit, query_clock, enable_clock, XdmadRc, XdmadState, get_driver,
  get_channel, put_channel,
}
use taste_samx_rtems_runtime.Xdmac.Registers.{
  get_channel_isr, disable_git, enable_git, disable_channel_it, enable_channel_it, disable_channel,
  enable_channel, set_source_addr, set_destination_addr, set_block_control, set_channel_config,
  set_descriptor_addr, set_descriptor_control, set_microblock_control, set_data_stride_mem_pattern,
  set_source_micro_block_stride, set_destination_micro_block_stride, get_global_ch_status,
}
use taste_samx_rtems_runtime.Xdmac.Driver.{
  channel_index, if_channel, is_free, is_start, is_in_xfr, with_state, set_state,
}

-- `Pmc_isPeripheralClkEnabled` and `Pmc_enablePeripheralClk` of the controller.
abbrev pub clock_enabled : M Bool
clock_enabled w m = some (w.clock_on m.events, record m { events = query_clock ∷ m.events })

-- `XDMAD_PrepareChannel` behind its guards.
unfoldable pub reset_hardware : ℕ → M XdmadRc
reset_hardware i = do
  on ← clock_enabled
  if on then pure tt else emit enable_clock
  status ← get_channel_isr i
  disable_git i
  disable_channel_it i 0xFF
  disable_channel i
  set_source_addr i 0
  set_destination_addr i 0
  set_block_control i 0
  set_channel_config i 0x20
  set_descriptor_addr i 0 0
  set_descriptor_control i 0
  pure XdmadRc.ok

unfoldable pub prepare_channel : ℕ → M XdmadRc
prepare_channel dw_channel =
    let i = channel_index dw_channel in
    if_channel i (do
      c ← get_channel i
      if is_free c.state
          then pure XdmadRc.error
          else if is_start c.state || is_in_xfr c.state
          then pure XdmadRc.busy
          else reset_hardware i)

-- `sXdmadCfg`
pub record XdmadCfg : Type 0 where
  pub mbr_ubc : ℕ
  pub mbr_sa : ℕ
  pub mbr_da : ℕ
  pub mbr_cfg : ℕ
  pub mbr_bc : ℕ
  pub mbr_ds : ℕ
  pub mbr_sus : ℕ
  pub mbr_dus : ℕ

abbrev pub when : Bool → M (Unit {0}) → M (Unit {0})
when b body = if b then body else pure tt

abbrev pub cndc_nde : ℕ
cndc_nde = 1

abbrev pub cndc_ndview_msk : ℕ
cndc_ndview_msk = 0x18

abbrev pub cndc_ndview_ndv0 : ℕ
cndc_ndview_ndv0 = 0

abbrev pub cndc_ndview_ndv1 : ℕ
cndc_ndview_ndv1 = 8

-- `XDMAD_ConfigureTransferWithDescriptorFetch`. The interrupt mask is passed on as a `uint8_t`.
unfoldable pub configure_with_fetch : ℕ → XdmadCfg → ℕ → ℕ → ℕ → M (Unit {0})
configure_with_fetch i p desc_cfg desc_addr int_en = do
  when (bit_and desc_cfg cndc_ndview_msk == cndc_ndview_ndv0) (do
    set_channel_config i p.mbr_cfg
    set_source_addr i p.mbr_sa
    set_destination_addr i p.mbr_da)
  when (bit_and desc_cfg cndc_ndview_msk == cndc_ndview_ndv1) (set_channel_config i p.mbr_cfg)
  set_descriptor_addr i desc_addr 0
  set_descriptor_control i desc_cfg
  disable_channel_it i 0xFF
  enable_channel_it i (u8 int_en)

-- `XDMAD_ConfigureTransferWithoutDescriptorFetch`
unfoldable pub configure_without_fetch : ℕ → XdmadCfg → ℕ → M (Unit {0})
configure_without_fetch i p int_en = do
  set_source_addr i p.mbr_sa
  set_destination_addr i p.mbr_da
  set_microblock_control i p.mbr_ubc
  set_block_control i p.mbr_bc
  set_data_stride_mem_pattern i p.mbr_ds
  set_source_micro_block_stride i p.mbr_sus
  set_destination_micro_block_stride i p.mbr_dus
  set_channel_config i p.mbr_cfg
  set_descriptor_addr i 0 0
  set_descriptor_control i 0
  enable_channel_it i (u8 int_en)

-- `XDMAD_ConfigureTransfer`
unfoldable pub configure_transfer : ℕ → XdmadCfg → ℕ → ℕ → ℕ → M XdmadRc
configure_transfer dw_channel p desc_cfg desc_addr int_en =
    let i = channel_index dw_channel in
    if_channel i (do
      status ← get_channel_isr i
      c ← get_channel i
      if is_free c.state
          then pure XdmadRc.error
          else if is_start c.state
          then pure XdmadRc.busy
          else do
            if bit_and desc_cfg cndc_nde == cndc_nde
                then configure_with_fetch i p desc_cfg desc_addr int_en
                else configure_without_fetch i p int_en
            pure XdmadRc.ok)

-- `XDMAD_StartTransfer`
unfoldable pub start_transfer : ℕ → M XdmadRc
start_transfer dw_channel =
    let i = channel_index dw_channel in
    if_channel i (do
      c ← get_channel i
      if is_free c.state
          then pure XdmadRc.error
          else if is_start c.state
          then pure XdmadRc.busy
          else do
            put_channel i (with_state XdmadState.start c)
            enable_channel i
            d ← get_driver
            when (d.polling_mode == 0) (enable_git i)
            pure XdmadRc.ok)

-- `XDMAD_StopTransfer`
unfoldable pub stop_transfer : ℕ → M XdmadRc
stop_transfer dw_channel =
    let i = channel_index dw_channel in
    if_channel i (do
      set_state i XdmadState.halted
      disable_channel i
      disable_channel_it i 0xFF
      status ← get_channel_isr i
      others ← get_global_ch_status
      pure XdmadRc.ok)
