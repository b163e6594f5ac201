-- ===== src/Xdmac.antt =====
-- The extensible DMA controller (src/Xdmac): registers, handshake interfaces, the channel driver and
-- its interrupt handler.
pub mod Machine
pub mod Registers
pub mod Interface
pub mod Driver
pub mod Transfer
pub mod Handler
pub mod Valid
pub mod Lifecycle
pub mod Allocation
pub mod Interrupts
pub mod Polling
pub mod Setup
pub mod Commands
pub mod Ownership
mod Tests
