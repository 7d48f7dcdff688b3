-- ===== src/Scheduler.antt =====
-- src/scheduler/: the server that collects the measurements.
pub mod CoreSession
pub mod Throughput
pub mod Listener
pub mod Database
pub mod Server
pub mod Receiving
pub mod Delivery
