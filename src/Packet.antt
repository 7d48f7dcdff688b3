-- ===== src/Packet.antt =====
-- src/listener/packet: what is parsed from a frame, and what is kept of a packet.
pub mod Direction
pub mod Ip
pub mod Transport
pub mod Parsed
pub mod DataPacket
