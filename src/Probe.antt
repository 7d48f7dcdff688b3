-- ===== src/Probe.antt =====
-- src/probe/: the active measurements, by other programs whose output is read, and by ping.
pub mod IperfJson
pub mod Iperf
pub mod Pathload
pub mod Ping
