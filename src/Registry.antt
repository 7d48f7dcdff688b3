-- ===== src/Registry.antt =====
-- src/listener/packet/packet_registry.rs and estimation.rs: statistics of a link, and the estimate of
-- its available bandwidth.
pub mod Regression
pub mod Estimation
pub mod PacketRegistry
