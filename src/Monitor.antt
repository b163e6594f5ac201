-- ===== src/Monitor.antt =====
-- src/Monitor/Monitor.c: the activation log, the stack usage, the queues and the processor usage.
pub mod Log
pub mod Stack
pub mod State
mod Tests
