-- ===== src/Tracking.antt =====
-- src/listener/tracking: from parsed packets to bursts, streams and links.
pub mod Burst
pub mod TcpStream
pub mod TcpTracker
pub mod UdpTracker
pub mod GenericTracker
pub mod Tracker
pub mod StreamId
pub mod StreamManager
pub mod LinkState
pub mod Link
