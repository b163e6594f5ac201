-- ===== src/Xdmac/Interrupts/Status.antt =====
-- The status of a channel as the interrupt handler reads it: XDMAD_HandleChannelInterruptStatus of
-- src/Xdmac/xdmad.c.
use taste_samx_rtems_runtime.Common.{
  [], ℕ, ◌<◌, ◌≡◌, refl, Bool, not, ◌&&◌, ◌||◌, some, List, ◌∷◌, get_elem?, if◌then◌else◌, arith,
  set-set, get_elem?-set_self, length-set, lt-of-get_elem?, bit_and,
}
use taste_samx_rtems_runtime.Common.Word.{u32, any_bit}
use taste_samx_rtems_runtime.Xdmac.Machine.{
  World, Machine, Event, XdmadState, XdmadChannel, load, cis, cim,
}
use taste_samx_rtems_runtime.Xdmac.Registers.{
  get_mask_channel_isr, get_channel_it_mask, cis_bis, cis_lis, cis_dis, cim_lim,
}
use taste_samx_rtems_runtime.Xdmac.Driver.{with_state}
use taste_samx_rtems_runtime.Xdmac.Handler.{handle_channel_interrupt_status}
use taste_samx_rtems_runtime.Xdmac.Lifecycle.{with_list}
use taste_samx_rtems_runtime.Xdmac.Valid.{Follows, Returns}

-- The masked status of channel `i` that is read after the history `es`.
abbrev pub masked_status : World → List Event → ℕ → ℕ
masked_status w es i =
    bit_and (u32 (w.reads es (cis i))) (u32 (w.reads (load (cis i) ∷ es) (cim i)))

-- The mask that is read after it.
abbrev pub later_mask : World → List Event → ℕ → ℕ
later_mask w es i = u32 (w.reads (load (cim i) ∷ load (cis i) ∷ es) (cim i))

-- The transfer is over: the end of the list or of the disabling is reported, or the end of a block
-- while the end of a list is not asked for.
abbrev pub is_over : World → List Event → ℕ → Bool
is_over w es i =
    any_bit (masked_status w es i) cis_lis
    || (any_bit (masked_status w es i) cis_dis
        || (any_bit (masked_status w es i) cis_bis && not (any_bit (later_mask w es i) cim_lim)))

-- Reading the masked status of a channel of the driver reports the end of its transfer exactly if
-- an end of a list, of the disabling, or of a block with no end of a list asked for is reported;
-- then the channel is done, otherwise the driver is kept.
pub status-over :
    (w : World) (m : Machine) (i : ℕ) (c : XdmadChannel)
    → i < 24
    → get_elem? m.driver.channels i ≡ some c
    → Returns (handle_channel_interrupt_status i w m) (λ exec m'.
      (exec ≡ is_over w m.events i)
      × (m'.driver ≡ (
          if is_over w m.events i
          then with_list m.driver i (with_state XdmadState.done c)
          else m.driver))
      × (m'.initialized ≡ m.initialized)
      × Follows (load (cis i) ∷ m.events) m'.events)
unfolding handle_channel_interrupt_status get_mask_channel_isr get_channel_it_mask
status-over w m i c lt e =
    let in_list = lt-of-get_elem? m.driver.channels i e in
    let c' : XdmadChannel = with_state XdmadState.done c in
    let once : Follows (load (cis i) ∷ m.events) (load (cim i) ∷ load (cis i) ∷ m.events) =
      (load (cim i) ∷ [], refl) in
    let twice : Follows (load (cis i) ∷ m.events)
        (load (cim i) ∷ load (cim i) ∷ load (cis i) ∷ m.events) =
      (load (cim i) ∷ load (cim i) ∷ [], refl) in
    ground (
      arith,
      in_list,
      once,
      twice,
      set-set m.driver.channels i c' c',
      get_elem?-set_self m.driver.channels i c' in_list,
      length-set m.driver.channels i c',
    )
