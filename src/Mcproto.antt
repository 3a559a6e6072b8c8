-- ===== src/Mcproto.antt =====
-- internal/mcproto: the packets of the Minecraft protocol that the proxy reads and writes.
pub mod VarInt
pub mod Packet
pub mod Strings
pub mod Handshake
pub mod Host
pub mod Login
pub mod Status
pub mod Tests
