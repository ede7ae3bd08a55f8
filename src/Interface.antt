-- ===== src/Interface.antt =====
-- ospfd/interface: the interface data structure, its state machine and the election of the DR.
pub mod State
pub mod Elect
pub mod Event
pub mod Loop
pub mod Winner
pub mod Invariant
pub mod Negotiated
