-- ===== src/Net.antt =====
-- shared/net.
pub mod Checksum
pub mod Packet
pub mod Tcp
pub mod Message
pub mod Dispatch
