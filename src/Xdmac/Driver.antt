-- ===== src/Xdmac/Driver.antt =====
-- The channel driver src/Xdmac/xdmad.c, the operations that give out channels. Transfer has those
-- on a transfer, and Handler has the interrupt handler.
-- The function names are those of the source without the prefix XDMAD.
use taste_samx_rtems_runtime.Common.{
  ℕ, zero, suc, ◌+◌, Bool, true, false, not, ◌&&◌, Option, none, some, ◌∷◌, leb, ◌==◌, bit_and,
  if◌then◌else◌,
}
use taste_samx_rtems_runtime.Common.Word.{u8}
use taste_samx_rtems_runtime.Xdmac.Machine.{
  M, pure, ◌>>=◌, ◌>>◌, assert, emit, obtain_lock, release_lock, XdmadRc, XdmadState, XdmadChannel,
  get_driver, put_driver, get_channel, put_channel,
}
use taste_samx_rtems_runtime.Xdmac.Registers.{get_type}
use taste_samx_rtems_runtime.Xdmac.Interface.{
  PeripheralIds, get_channel_number, is_validated_peripher_on_dma,
}

abbrev pub transfer_memory : ℕ
transfer_memory = 0xFF

abbrev pub alloc_failed : ℕ
alloc_failed = 0xFFFF

-- Tests on `state`.
abbrev pub is_free : XdmadState → Bool
is_free XdmadState.free = true
is_free _ = false

abbrev pub is_start : XdmadState → Bool
is_start XdmadState.start = true
is_start _ = false

abbrev pub is_in_xfr : XdmadState → Bool
is_in_xfr XdmadState.in_xfr = true
is_in_xfr _ = false

abbrev pub with_state : XdmadState → XdmadChannel → XdmadChannel
with_state s c = record c { state = s }

abbrev pub set_state : ℕ → XdmadState → M (Unit {0})
set_state i s = do c ← get_channel i; put_channel i (with_state s c)

-- `rtems_semaphore_obtain(xdmad_lock, RTEMS_WAIT, timeout)`: whether it returns RTEMS_SUCCESSFUL. A
-- timeout of RTEMS_NO_TIMEOUT is `none`.
abbrev pub obtain : Option ℕ → M Bool
obtain timeout w m = some (w.obtains m.events, record m { events = obtain_lock timeout ∷ m.events })

-- What the loop of `XDMAD_AllocateXdmacChannel` writes into the channel that it takes.
abbrev pub claimed : XdmadChannel → ℕ → ℕ → ℕ → ℕ → ℕ → ℕ → XdmadChannel
claimed c src dst src_tx src_rx dst_tx dst_rx = record c {
  state = XdmadState.allocated;
  src_periph_id = src;
  dst_periph_id = dst;
  src_tx_if_id = src_tx;
  src_rx_if_id = src_rx;
  dst_tx_if_id = dst_tx;
  dst_rx_if_id = dst_rx;
}

module _ (ids : PeripheralIds) where
  -- The body of the `if` in the loop: the channel is taken before its interfaces are looked up.
  unfoldable pub claim : ℕ → ℕ → ℕ → M ℕ
  claim i src dst = do
    set_state i XdmadState.allocated
    src_tx ← get_channel_number ids src 0
    src_rx ← get_channel_number ids src 1
    dst_tx ← get_channel_number ids dst 0
    dst_rx ← get_channel_number ids dst 1
    c ← get_channel i
    put_channel i (claimed c src dst src_tx src_rx dst_tx dst_rx)
    pure (bit_and i 0xFF)

  -- The loop, with the rounds that are left.
  unfoldable pub claim_free : ℕ → ℕ → ℕ → ℕ → M ℕ
  claim_free zero i src dst = pure alloc_failed
  claim_free (suc rounds) i src dst = do
    c ← get_channel i
    let rest = claim_free rounds (i + 1) src dst
    if is_free c.state then claim i src dst else rest

  -- `XDMAD_AllocateXdmacChannel`
  unfoldable pub allocate_xdmac_channel : ℕ → ℕ → M ℕ
  allocate_xdmac_channel src dst =
      if not (src == transfer_memory) && not (dst == transfer_memory) then pure alloc_failed else do
        src_valid ←
            if dst == transfer_memory then is_validated_peripher_on_dma ids src else pure true
        if not src_valid then pure alloc_failed else do
          dst_valid ←
              if src == transfer_memory then is_validated_peripher_on_dma ids dst else pure true
          if not dst_valid
              then pure alloc_failed
              else (do d ← get_driver; claim_free d.num_channels 0 src dst)

  -- `XDMAD_AllocateChannel`. The lock is a semaphore that exists, so its assertion holds.
  unfoldable pub allocate_channel : ℕ → ℕ → M ℕ
  allocate_channel src dst = do
    obtained ← obtain (some 0x7FF)
    if obtained
        then (do channel ← allocate_xdmac_channel src dst; emit release_lock; pure channel)
        else pure alloc_failed

-- The state of a channel after the loop of `XDMAD_Initialize`.
abbrev pub fresh_channel : XdmadChannel
fresh_channel = record {
  callback = none;
  arg = 0;
  irq_owner = 0;
  src_periph_id = 0;
  dst_periph_id = 0;
  src_tx_if_id = 0;
  src_rx_if_id = 0;
  dst_tx_if_id = 0;
  dst_rx_if_id = 0;
  state = XdmadState.free;
}

unfoldable pub reset_channels : ℕ → ℕ → M (Unit {0})
reset_channels zero j = pure tt
reset_channels (suc rounds) j = do put_channel j fresh_channel; reset_channels rounds (j + 1)

abbrev pub set_initialized : M (Unit {0})
set_initialized w m = some (tt, record m { initialized = true })

abbrev pub get_initialized : M Bool
get_initialized w m = some (m.initialized, m)

-- `XDMAC_GTYPE_NB_CH(type) + 1`, stored in a `uint8_t`.
abbrev pub channel_count : ℕ → ℕ
channel_count gtype = u8 (bit_and 0x1f gtype + 1)

-- `XDMAD_Initialize`
unfoldable pub initialize : ℕ → M (Unit {0})
initialize polling_mode = do
  obtained ← obtain none
  assert obtained
  done ← get_initialized
  if done then emit release_lock else do
    gtype ← get_type
    d ← get_driver
    put_driver (record d {
      polling_mode = polling_mode;
      num_controllers = 1;
      num_channels = channel_count gtype;
    })
    reset_channels (channel_count gtype) 0
    set_initialized
    emit release_lock

-- `(dwChannel) & 0xFF` in a `uint8_t`.
abbrev pub channel_index : ℕ → ℕ
channel_index dw_channel = u8 (bit_and dw_channel 0xFF)

-- Every operation on a channel begins with the test against `numChannels`.
abbrev pub if_channel : ℕ → M XdmadRc → M XdmadRc
if_channel i body = do d ← get_driver; if leb d.num_channels i then pure XdmadRc.error else body

abbrev pub free_by_state : ℕ → XdmadState → M XdmadRc
free_by_state i XdmadState.allocated = pure XdmadRc.busy
free_by_state i XdmadState.start = pure XdmadRc.busy
free_by_state i XdmadState.in_xfr = pure XdmadRc.busy
free_by_state i XdmadState.done = do set_state i XdmadState.free; pure XdmadRc.ok
free_by_state i XdmadState.halted = do set_state i XdmadState.free; pure XdmadRc.ok
free_by_state i XdmadState.free = pure XdmadRc.ok

-- `XDMAD_FreeChannel`
unfoldable pub free_channel : ℕ → M XdmadRc
free_channel dw_channel =
    let i = channel_index dw_channel in if_channel i (do c ← get_channel i; free_by_state i c.state)

-- `XDMAD_SetCallback`
unfoldable pub set_callback : ℕ → Option ℕ → ℕ → M XdmadRc
set_callback dw_channel callback arg =
    let i = channel_index dw_channel in
    if_channel i (do
      c ← get_channel i
      if is_free c.state
          then pure XdmadRc.error
          else if is_start c.state
          then pure XdmadRc.busy
          else (do put_channel i (record c { callback = callback; arg = arg }); pure XdmadRc.ok))
