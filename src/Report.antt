-- ===== src/Report.antt =====
-- The death report of src/FaultHandler: its checksum and its writer.
pub mod Crc
pub mod Writer
mod Tests
