-- ===== src/Bench.antt =====
-- bench/cpp: the two programs that measure transfers. Each runs as an initiator, which reads, or as a
-- target, which is read from.
pub mod Memory
pub mod Held
pub mod Wire
pub mod Transfer
pub mod Devices
pub mod Scheduling
