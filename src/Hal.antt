-- ===== src/Hal.antt =====
-- src/Hal/Hal.c: the elapsed time, the semaphores and the set-up.
pub mod Time
pub mod Semaphores
pub mod Reset
pub mod Watchdog
pub mod Start
mod Tests
