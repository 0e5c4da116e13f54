-- ===== src/Net.antt =====
-- src/net: packets, the local addresses and the packet hash.
mod Tests
pub mod IpList
pub mod Packet
pub mod PacketHash
pub mod Sniffer
