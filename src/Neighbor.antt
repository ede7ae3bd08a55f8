-- ===== src/Neighbor.antt =====
-- ospfd/neighbor: the neighbor data structure and its state machine.
pub mod State
pub mod Event
pub mod Invariant
pub mod Diagram
