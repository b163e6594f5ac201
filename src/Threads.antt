-- ===== src/Threads.antt =====
-- src/ThreadsCommon/ThreadsCommon.c: requests to threads, their execution times, and cyclic requests.
pub mod Request
pub mod Cyclic
mod Tests
