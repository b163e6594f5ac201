-- ===== src/Xdmac/Commands.antt =====
-- A client's calls of src/Xdmac/xdmad.c on a channel, as one type, and what they do.
mod Effect
pub use Effect.{Does}
use taste_samx_rtems_runtime.Common.{ℕ, ◌≡◌, Option}
use taste_samx_rtems_runtime.Xdmac.Machine.{World, Machine, M, XdmadRc}
use taste_samx_rtems_runtime.Xdmac.Valid.{IsValid, Returns}
use taste_samx_rtems_runtime.Xdmac.Lifecycle.{Command}
use taste_samx_rtems_runtime.Xdmac.Driver.{free_channel, set_callback}
use taste_samx_rtems_runtime.Xdmac.Transfer.{
  XdmadCfg, prepare_channel, configure_transfer, start_transfer, stop_transfer,
}
use Effect.{
  free_channel-Does, set_callback-Does, prepare_channel-Does, configure_transfer-Does,
  start_transfer-Does, stop_transfer-Does,
}

-- A call with its arguments; the first is `dwChannel`.
pub data Call : Type 0 where
  free_channel_call : ℕ → Call
  set_callback_call : ℕ → Option ℕ → ℕ → Call
  prepare_channel_call : ℕ → Call
  configure_transfer_call : ℕ → XdmadCfg → ℕ → ℕ → ℕ → Call
  start_transfer_call : ℕ → Call
  stop_transfer_call : ℕ → Call

unfoldable pub perform : Call → M XdmadRc
perform (free_channel_call dw) = free_channel dw
perform (set_callback_call dw f a) = set_callback dw f a
perform (prepare_channel_call dw) = prepare_channel dw
perform (configure_transfer_call dw p cfg addr it) = configure_transfer dw p cfg addr it
perform (start_transfer_call dw) = start_transfer dw
perform (stop_transfer_call dw) = stop_transfer dw

abbrev pub command : Call → Command
command (free_channel_call dw) = Command.release
command (set_callback_call dw f a) = Command.subscribe f a
command (prepare_channel_call dw) = Command.prepare
command (configure_transfer_call dw p cfg addr it) = Command.configure
command (start_transfer_call dw) = Command.begin
command (stop_transfer_call dw) = Command.stop

abbrev pub target : Call → ℕ
target (free_channel_call dw) = dw
target (set_callback_call dw f a) = dw
target (prepare_channel_call dw) = dw
target (configure_transfer_call dw p cfg addr it) = dw
target (start_transfer_call dw) = dw
target (stop_transfer_call dw) = dw

-- On a valid driver every call of the channel interface returns, with no assertion failed and no
-- access outside an array, and it replies and changes the driver's memory exactly as the life cycle
-- table says for the channel number in the low byte of `dwChannel`; an unknown channel is an error
-- and changes nothing. The initialisation flag is kept.
pub perform_refines :
    (w : World) (m : Machine) (k : Call)
    → IsValid m
    → Returns (perform k w m) (Does (command k) (target k) m)
unfolding perform
perform_refines w m (free_channel_call dw) v = free_channel-Does w m dw v
perform_refines w m (set_callback_call dw f a) v = set_callback-Does w m dw v f a
perform_refines w m (prepare_channel_call dw) v = prepare_channel-Does w m dw v
perform_refines w m (configure_transfer_call dw p cfg addr it) v =
    configure_transfer-Does w m dw v p cfg addr it
perform_refines w m (start_transfer_call dw) v = start_transfer-Does w m dw v
perform_refines w m (stop_transfer_call dw) v = stop_transfer-Does w m dw v
