-- ===== src/Core.antt =====
-- src/SamV71Core/SamV71Core.c and src/SamRH71Core/SamRH71Core.c: the clocks, the configuration that
-- the macros of a build choose, and the regions of the memory protection unit.
pub mod Clock
pub mod Config
pub mod Init
pub mod Names
pub mod Regions
mod Tests
