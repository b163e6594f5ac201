-- ===== src/Xdmac/Commands/Effect.antt =====
-- Every operation of src/Xdmac/xdmad.c on a channel that a client has, against the life cycle. No
-- assertion fails and no access is outside an array.
use taste_samx_rtems_runtime.Common.{
  ℕ, ◌<◌, ◌≡◌, inl, inr, true, false, Option, some, ◌∷◌, leb, get_elem?, arith, Bool-cases,
  get_elem?-some, set-get_elem?,
}
use taste_samx_rtems_runtime.Xdmac.Machine.{World, Machine, XdmadRc, XdmadChannel, load, cis}
use taste_samx_rtems_runtime.Xdmac.Registers.{
  get_channel_isr, disable_git, enable_git, disable_channel_it, enable_channel_it, disable_channel,
  enable_channel, set_source_addr, set_destination_addr, set_block_control, set_channel_config,
  set_descriptor_addr, set_descriptor_control, set_microblock_control, set_data_stride_mem_pattern,
  set_source_micro_block_stride, set_destination_micro_block_stride, get_global_ch_status,
}
use taste_samx_rtems_runtime.Xdmac.Valid.{IsValid, Returns}
use taste_samx_rtems_runtime.Xdmac.Lifecycle.{Command, next, apply}
use taste_samx_rtems_runtime.Xdmac.Driver.{channel_index, free_channel, set_callback}
use taste_samx_rtems_runtime.Xdmac.Transfer.{
  stop_transfer, start_transfer, prepare_channel, reset_hardware, configure_transfer,
  configure_with_fetch, configure_without_fetch, XdmadCfg,
}

-- The operation returns what the command `k` replies, and leaves the driver as the command does.
abbrev pub Does : Command → ℕ → Machine → XdmadRc → Machine → Type 0
Does k dw m rc m' =
    ((rc, m'.driver) ≡ apply k (channel_index dw) m.driver) × (m'.initialized ≡ m.initialized)

-- The accesses to the hardware leave the driver's memory alone.
module _ (w : World) (m : Machine) where
  reset_hardware_keeps :
      (i : ℕ)
      → i < 24
      → Returns
          (reset_hardware i w m)
          (λ rc m'. (rc ≡ XdmadRc.ok) × (m'.driver ≡ m.driver) × (m'.initialized ≡ m.initialized))
  unfolding reset_hardware get_channel_isr disable_git disable_channel_it disable_channel
      set_source_addr set_destination_addr set_block_control set_channel_config set_descriptor_addr
      set_descriptor_control
  reset_hardware_keeps i lt = ground arith

  configure_with_fetch_keeps :
      (i : ℕ) (p : XdmadCfg) (desc_cfg desc_addr int_en : ℕ)
      → i < 24
      → Returns
          (configure_with_fetch i p desc_cfg desc_addr int_en w m)
          (λ _ m'. (m'.driver ≡ m.driver) × (m'.initialized ≡ m.initialized))
  unfolding configure_with_fetch set_channel_config set_source_addr set_destination_addr
      set_descriptor_addr set_descriptor_control disable_channel_it enable_channel_it
  configure_with_fetch_keeps i p desc_cfg desc_addr int_en lt = ground arith

  configure_without_fetch_keeps :
      (i : ℕ) (p : XdmadCfg) (int_en : ℕ)
      → i < 24
      → Returns
          (configure_without_fetch i p int_en w m)
          (λ _ m'. (m'.driver ≡ m.driver) × (m'.initialized ≡ m.initialized))
  unfolding configure_without_fetch set_source_addr set_destination_addr set_microblock_control
      set_block_control set_data_stride_mem_pattern set_source_micro_block_stride
      set_destination_micro_block_stride set_channel_config set_descriptor_addr
      set_descriptor_control enable_channel_it
  configure_without_fetch_keeps i p int_en lt = ground arith

module _ (w : World) (m : Machine) (dw : ℕ) (v : IsValid m) where
  -- Either the channel is out of range, or there is such a channel.
  by_channel {ℓ} :
      {P : Type ℓ}
      → (leb m.driver.num_channels (channel_index dw) ≡ true → P)
      → ((c : XdmadChannel)
          → channel_index dw < 24
          → leb m.driver.num_channels (channel_index dw) ≡ false
          → get_elem? m.driver.channels (channel_index dw) ≡ some c
          → P)
      → P
  by_channel out within = elim (Bool-cases (leb m.driver.num_channels (channel_index dw))) [
    | inl e ↦ out e
    | inr e ↦
        (let (c, h) =
            get_elem?-some m.driver.channels (channel_index dw) (ground (arith, v.size, v.count)) in
          within c (ground (arith, v.count)) e h)
  ]

  pub stop_transfer-Does : Returns (stop_transfer dw w m) (Does Command.stop dw m)
  unfolding stop_transfer disable_channel disable_channel_it get_channel_isr get_global_ch_status
      apply next
  stop_transfer-Does =
      by_channel (λ out. ground arith)
        (λ c lt e h. ground (arith, set-get_elem? m.driver.channels (channel_index dw) h))

  pub start_transfer-Does : Returns (start_transfer dw w m) (Does Command.begin dw m)
  unfolding start_transfer enable_channel enable_git apply next
  start_transfer-Does =
      by_channel (λ out. ground arith)
        (λ c lt e h. ground (arith, set-get_elem? m.driver.channels (channel_index dw) h))

  pub free_channel-Does : Returns (free_channel dw w m) (Does Command.release dw m)
  unfolding free_channel apply next
  free_channel-Does =
      by_channel (λ out. ground arith)
        (λ c lt e h. ground (arith, set-get_elem? m.driver.channels (channel_index dw) h))

  pub prepare_channel-Does : Returns (prepare_channel dw w m) (Does Command.prepare dw m)
  unfolding prepare_channel apply next
  prepare_channel-Does =
      by_channel (λ out. ground arith)
        (λ c lt e h. ground (
          arith,
          set-get_elem? m.driver.channels (channel_index dw) h,
          reset_hardware_keeps w m (channel_index dw) lt,
        ))

  pub set_callback-Does :
      (f : Option ℕ) (a : ℕ) → Returns (set_callback dw f a w m) (Does (Command.subscribe f a) dw m)
  unfolding set_callback apply next
  set_callback-Does f a =
      by_channel (λ out. ground arith)
        (λ c lt e h. ground (arith, set-get_elem? m.driver.channels (channel_index dw) h))

  pub configure_transfer-Does :
      (p : XdmadCfg) (desc_cfg desc_addr int_en : ℕ)
      → Returns
          (configure_transfer dw p desc_cfg desc_addr int_en w m)
          (Does Command.configure dw m)
  unfolding configure_transfer get_channel_isr apply next
  configure_transfer-Does p desc_cfg desc_addr int_en =
      by_channel (λ out. ground arith)
        (λ c lt e h. ground (
          arith,
          set-get_elem? m.driver.channels (channel_index dw) h,
          configure_with_fetch_keeps w (seen (channel_index dw)) (channel_index dw) p desc_cfg
              desc_addr int_en lt,
          configure_without_fetch_keeps w (seen (channel_index dw)) (channel_index dw) p int_en lt,
        ))
    where
      seen : ℕ → Machine
      seen i = record m { events = load (cis i) ∷ m.events }
