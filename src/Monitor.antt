-- ===== src/Monitor.antt =====
-- monitor/: the detection of repetition.
pub mod Thrash
pub mod Counters
pub mod Examples
