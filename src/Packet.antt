-- ===== src/Packet.antt =====
-- The crate `ospf-packet`: the wire types, their byte codec, checksums and the order of LSAs; and
-- the codec that the crate `ospf-macros` derives.
pub mod Lsa
pub mod Types
pub mod Ospf
pub mod Order
pub mod Bits
pub mod Macros
pub mod Codec
pub mod Checksum
pub mod Convert
