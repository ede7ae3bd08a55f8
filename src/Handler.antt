-- ===== src/Handler.antt =====
-- ospfd/handler: what a router does with each packet.
pub mod Hello
pub mod Dd
pub mod Lsr
pub mod Ack
pub mod Lsu
pub mod Dispatch
