-- ===== src/Protocol.antt =====
-- ldn_mitm/source/lan_protocol.cpp and .hpp: LAN packet framing over a byte stream.
pub mod Compress
pub mod Header
pub mod Socket
